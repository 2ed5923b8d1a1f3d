-- ===== src/Spsc/Sides/Run.antt =====
-- src/spsc.rs: the calls of the two sides against the same calls on a list of bounded length.
use doom_fish_utils.Base.{
  ℕ, ◌≤◌, ◌<◌, ◌^◌, ◌≡◌, refl, ap, ◌∙◌, inl, inr, List, [], ◌∷◌, ◌++◌, Option, none, some, Bool,
  true, false, ltb, ltb→lt, lt→ltb, le→leb, if◌then◌else◌, length, arith, Bool-cases, ok, err,
  returned,
}
use doom_fish_utils.Future.{Poll, ready, pending}
use doom_fish_utils.Future.Waker.{AtomicWaker}
use doom_fish_utils.Spsc.{Ring, finished, new, push, with_capacity}
use doom_fish_utils.Spsc.Refine.{Represents}
use doom_fish_utils.Spsc.Push.{pushed, pushed-Represents, push-free, overwritten, push-full}
use doom_fish_utils.Spsc.Pop.{taken_out, taken_out-Represents}
use doom_fish_utils.Spsc.Overwrite.{overwritten-Represents}
use doom_fish_utils.Spsc.Count.{len-Represents}
use doom_fish_utils.Spsc.Fresh.{new-Represents}
use doom_fish_utils.Spsc.Sides.{
  Inner, sides, send, sent, push_overwrite, sent_over, drop_producer, buffered_count,
}
use doom_fish_utils.Spsc.Sides.Polling.{
  receive-item, receive-empty, poll-item, poll-closed, poll-open,
}
use doom_fish_utils.Spsc.Sides.Calls.{
  Op, sends, overwrites, counts, drops, receives, polls, Reply, displaced, counted, dropped, polled,
  Queue, head, poll_head, empty_queue, replied, quiet, perform, followed, then_run, run, over,
  perform_list, run_list,
}

module _ {ℓ} {A : Type ℓ} (W : AtomicWaker) where
  pub record Holds (s : Inner A W) (cap : ℕ) (q : Queue A) : Type ℓ where
    pub ring : Represents s.queue cap q.items
    pub closed_eq : s.producer_closed ≡ q.is_closed
    pub waiting_eq : W.held s.waker ≡ q.waiting

  -- The call ends, and wakes and answers as on the list.
  abbrev Agrees :
      Option (Inner A W × Option ℕ × Reply A) → ℕ → Queue A × Option ℕ × Reply A → Type ℓ
  Agrees o cap (q, w, a) = (s : Inner A W) × (o ≡ some (s, w, a)) × Holds s cap q

  refused :
      {r : Ring A} {cap : ℕ} (item : A) (xs : List A)
      → Represents r cap xs
      → length xs ≡ cap
      → push r item false ≡ finished r (err item)
  refused item [] h e = absurd (omega (arith, h.index_lt, e))
  refused {r} {cap} item (x ∷ xs) h e = push-full r cap x xs item false h e

  module _ (s : Inner A W) (cap : ℕ) (q : Queue A) (h : Holds s cap q) where
    -- A call that wakes whoever waits.
    woken-Agrees :
        (r : Ring A) (c d : Bool) (xs : List A) (a : Reply A)
        (o : Option (Inner A W × Option ℕ × Reply A))
        → o
          ≡ some (
            record { queue = r; producer_closed = c; waker = (W.take s.waker).0 },
            (W.take s.waker).1,
            a,
          )
        → Represents r cap xs
        → c ≡ d
        → Agrees o cap (record { items = xs; is_closed = d; waiting = none }, q.waiting, a)
    woken-Agrees r c d xs a o e g f =
        let t : Inner A W = record { queue = r; producer_closed = c; waker = (W.take s.waker).0 } in
        (
          t,
          e ∙ ap (λ w. some (t, w, a)) (W.take_held s.waker ∙ h.waiting_eq),
          record { ring = g; closed_eq = f; waiting_eq = W.held-take s.waker },
        )

    sends-Agrees :
        (item : A) → Agrees (perform W (sends item) s) cap (perform_list cap (sends item) q)
    unfolding perform perform_list send
    sends-Agrees item = elim (Bool-cases (ltb (length q.items) cap)) [
      | inl e ↦
          let l : length q.items < cap = ltb→lt (length q.items) cap e in
          rw e (
            woken-Agrees (pushed s.queue item) s.producer_closed q.is_closed (q.items ++ item ∷ [])
              (Reply.sent (ok tt)) (perform W (sends item) s)
              (ap (λ r. replied W Reply.sent (sent W s r))
                (push-free s.queue cap q.items item false h.ring l))
              (pushed-Represents s.queue cap q.items item h.ring l) h.closed_eq)
      | inr e ↦
          let l : length q.items ≡ cap = ground (arith, h.ring.fits) in
          rw e (s, ap (λ r. replied W Reply.sent (sent W s r)) (refused item q.items h.ring l), h)
    ]

    over-Agrees :
        (item : A) (xs : List A)
        → Represents s.queue cap xs
        → length xs ≡ cap
        → Agrees (perform W (overwrites item) s) cap (over q xs item)
    unfolding perform push_overwrite
    over-Agrees item [] g e = absurd (omega (arith, g.index_lt, e))
    over-Agrees item (x ∷ xs) g e =
        woken-Agrees (overwritten s.queue item) s.producer_closed q.is_closed (xs ++ item ∷ [])
          (displaced (some x)) (perform W (overwrites item) s)
          (ap (λ r. replied W displaced (sent_over W s r))
            (push-full s.queue cap x xs item true g e))
          (overwritten-Represents s.queue cap x xs item g e) h.closed_eq

    overwrites-Agrees :
        (item : A)
        → Agrees (perform W (overwrites item) s) cap (perform_list cap (overwrites item) q)
    unfolding perform perform_list push_overwrite
    overwrites-Agrees item = elim (Bool-cases (ltb (length q.items) cap)) [
      | inl e ↦
          let l : length q.items < cap = ltb→lt (length q.items) cap e in
          rw e (
            woken-Agrees (pushed s.queue item) s.producer_closed q.is_closed (q.items ++ item ∷ [])
              (displaced none) (perform W (overwrites item) s)
              (ap (λ r. replied W displaced (sent_over W s r))
                (push-free s.queue cap q.items item true h.ring l))
              (pushed-Represents s.queue cap q.items item h.ring l) h.closed_eq)
      | inr e ↦
          let l : length q.items ≡ cap = ground (arith, h.ring.fits) in
          rw e (over-Agrees item q.items h.ring l)
    ]

    -- A call that leaves the queue as it is, or takes its first item.
    taken-Holds :
        (x : A) (xs : List A)
        → Represents s.queue cap (x ∷ xs)
        → Holds (record s { queue = taken_out s.queue }) cap (record q { items = xs })
    taken-Holds x xs g = record {
      ring = taken_out-Represents s.queue cap x xs g;
      closed_eq = h.closed_eq;
      waiting_eq = h.waiting_eq;
    }

    receives-Agrees :
        (xs : List A)
        → Represents s.queue cap xs
        → q.items ≡ xs
        → Agrees (perform W receives s) cap ((head q xs).0, none, Reply.received (head q xs).1)
    unfolding perform
    receives-Agrees [] g e = (s, ap (quiet W Reply.received) (receive-empty W s cap g), h)
    receives-Agrees (x ∷ xs) g e = (
      record s { queue = taken_out s.queue },
      ap (quiet W Reply.received) (receive-item W s cap x xs g),
      taken-Holds x xs g,
    )

    waits :
        (waker : ℕ)
        → Holds
            (record s { waker = W.register s.waker waker })
            cap
            (record q { waiting = some waker })
    waits waker = record {
      ring = h.ring;
      closed_eq = h.closed_eq;
      waiting_eq = W.held-register s.waker waker;
    }

    polls-empty :
        (waker : ℕ) (b : Bool)
        → Represents s.queue cap []
        → q.is_closed ≡ b
        → let p : Queue A × Poll (Option A) =
            if b then (q, ready none) else (record q { waiting = some waker }, pending) in
          Agrees (perform W (polls waker) s) cap (p.0, none, polled p.1)
    unfolding perform
    polls-empty waker true g e =
        (s, ap (quiet W polled) (poll-closed W s cap waker g (h.closed_eq ∙ e)), h)
    polls-empty waker false g e = (
      record s { waker = W.register s.waker waker },
      ap (quiet W polled) (poll-open W s cap waker g (h.closed_eq ∙ e)),
      waits waker,
    )

    polls-Agrees :
        (waker : ℕ) (xs : List A)
        → Represents s.queue cap xs
        → Agrees
            (perform W (polls waker) s)
            cap
            ((poll_head q waker xs).0, none, polled (poll_head q waker xs).1)
    unfolding perform
    polls-Agrees waker [] g = polls-empty waker q.is_closed g refl
    polls-Agrees waker (x ∷ xs) g = (
      record s { queue = taken_out s.queue },
      ap (quiet W polled) (poll-item W s cap waker x xs g),
      taken-Holds x xs g,
    )

    perform-Agrees : (op : Op A) → Agrees (perform W op s) cap (perform_list cap op q)
    unfolding perform perform_list drop_producer buffered_count
    perform-Agrees (sends item) = sends-Agrees item
    perform-Agrees (overwrites item) = overwrites-Agrees item
    perform-Agrees counts =
        (s, ap (λ n. some (s, none, counted n)) (len-Represents s.queue cap q.items h.ring), h)
    perform-Agrees drops =
        woken-Agrees s.queue true true q.items dropped (perform W drops s) refl h.ring refl
    perform-Agrees receives = receives-Agrees q.items h.ring refl
    perform-Agrees (polls waker) = polls-Agrees waker q.items h.ring

  run-Holds :
      (ops : List (Op A)) (s : Inner A W) (cap : ℕ) (q : Queue A)
      → Holds s cap q
      → (t : Inner A W) × (run W ops s ≡ some (t, (run_list cap ops q).1))
        × Holds t cap (run_list cap ops q).0
  unfolding run run_list
  run-Holds [] s cap q h = (s, refl, h)
  run-Holds (op ∷ ops) s cap q h =
      let (t, e, g) = perform-Agrees s cap q h op in
      let (u, d, f) = run-Holds ops t cap (perform_list cap op q).0 g in
      (
        u,
        ap (then_run W (λ v. run W ops v)) e
            ∙ ap (followed W ((perform_list cap op q).1, (perform_list cap op q).2)) d,
        f,
      )

  -- A ring of one up to 2 ^ 62 slots, at most `maximum`, is made, and on it any calls of the producer
  -- (`push`, `push_overwrite`, the count, being dropped) and the consumer (`pop`, a poll, with the count
  -- too) end, each running alone. They answer what the same calls answer on a list of at most so many
  -- items that knows if the producer is gone and which waker waits: a push on a full ring gives the item
  -- back and an overwriting one the oldest item, a poll of an empty ring ends the stream if the producer
  -- is gone and otherwise makes its waker the one that waits, and each push that succeeds and the drop
  -- wake the one that waits, once. The ring then holds the list's items.
  pub sides-run :
      (maximum n : ℕ) (ops : List (Op A))
      → 0 < n
      → n ≤ maximum
      → n ≤ 2 ^ 62
      → (s t : Inner A W) × (sides W maximum n ≡ returned s)
        × (run W ops s ≡ some (t, (run_list n ops empty_queue).1))
        × Holds t n (run_list n ops empty_queue).0
  unfolding sides with_capacity
  sides-run maximum n ops h m g =
      let s : Inner A W = record { queue = new n; producer_closed = false; waker = W.new } in
      let o : Holds s n empty_queue = record {
        ring = new-Represents A n h g;
        closed_eq = refl;
        waiting_eq = W.held-new;
      } in
      let (t, e, f) = run-Holds ops s n empty_queue o in
      let a : ltb 0 maximum ≡ true = lt→ltb 0 maximum (omega arith) in
      (s, t, rw (a, lt→ltb 0 n h, le→leb n maximum m) refl, e, f)
