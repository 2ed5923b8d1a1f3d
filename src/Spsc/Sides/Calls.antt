-- ===== src/Spsc/Sides/Calls.antt =====
-- src/spsc.rs: the calls of the two sides in any order, and the same on a list of bounded length.
use doom_fish_utils.Base.{
  ℕ, List, [], ◌∷◌, ◌++◌, Option, none, some, Bool, true, false, ltb, if◌then◌else◌, length, Result,
  ok, err,
}
use doom_fish_utils.Future.{Poll, ready, pending}
use doom_fish_utils.Future.Waker.{AtomicWaker}
use doom_fish_utils.Spsc.Sides.{
  Inner, send, push_overwrite, drop_producer, buffered_count, receive, poll_pop,
}

pub data Op {ℓ} (A : Type ℓ) : Type ℓ where
  sends : A → Op A
  overwrites : A → Op A
  counts : Op A
  drops : Op A
  receives : Op A
  polls : ℕ → Op A

pub data Reply {ℓ} (A : Type ℓ) : Type ℓ where
  sent : Result (Unit {0}) A → Reply A
  displaced : Option A → Reply A
  counted : ℕ → Reply A
  dropped : Reply A
  received : Option A → Reply A
  polled : Poll (Option A) → Reply A

-- What the sides share, as a list, and the waker that waits for the producer.
pub record Queue {ℓ} (A : Type ℓ) : Type ℓ where
  pub items : List A
  pub is_closed : Bool
  pub waiting : Option ℕ

module _ {ℓ} {A : Type ℓ} where
  module _ (W : AtomicWaker) where
    abbrev pub replied {κ} :
        {B : Type κ}
        → (B → Reply A)
        → Option (Inner A W × Option ℕ × B)
        → Option (Inner A W × Option ℕ × Reply A)
    replied f none = none
    replied f (some (s, w, b)) = some (s, w, f b)

    -- A consumer's call wakes nobody.
    abbrev pub quiet {κ} :
        {B : Type κ}
        → (B → Reply A)
        → Option (Inner A W × B)
        → Option (Inner A W × Option ℕ × Reply A)
    quiet f none = none
    quiet f (some (s, b)) = some (s, none, f b)

    -- What a call leaves, the waker that it wakes, and its answer.
    unfoldable pub perform : Op A → Inner A W → Option (Inner A W × Option ℕ × Reply A)
    perform (sends item) s = replied sent (send W s item)
    perform (overwrites item) s = replied displaced (push_overwrite W s item)
    perform counts s = some (s, none, counted (buffered_count W s))
    perform drops s = some ((drop_producer W s).0, (drop_producer W s).1, dropped)
    perform receives s = quiet received (receive W s)
    perform (polls waker) s = quiet polled (poll_pop W s waker)

    abbrev pub followed :
        Option ℕ × Reply A
        → Option (Inner A W × List (Option ℕ × Reply A))
        → Option (Inner A W × List (Option ℕ × Reply A))
    followed a none = none
    followed a (some (s, replies)) = some (s, a ∷ replies)

    abbrev pub then_run :
        (Inner A W → Option (Inner A W × List (Option ℕ × Reply A)))
        → Option (Inner A W × Option ℕ × Reply A)
        → Option (Inner A W × List (Option ℕ × Reply A))
    then_run f none = none
    then_run f (some (s, w, a)) = followed (w, a) (f s)

    unfoldable pub run : List (Op A) → Inner A W → Option (Inner A W × List (Option ℕ × Reply A))
    unfolding perform
    run [] s = some (s, [])
    run (op ∷ ops) s = then_run (λ t. run ops t) (perform op s)

  abbrev pub empty_queue : Queue A
  empty_queue = record { items = []; is_closed = false; waiting = none }

  -- A full queue gives up its first item.
  abbrev pub over : Queue A → List A → A → Queue A × Option ℕ × Reply A
  over q [] item = (q, none, displaced none)
  over q (x ∷ xs) item =
      (record q { items = xs ++ item ∷ []; waiting = none }, q.waiting, displaced (some x))

  abbrev pub head : Queue A → List A → Queue A × Option A
  head q [] = (q, none)
  head q (x ∷ xs) = (record q { items = xs }, some x)

  abbrev pub poll_head : Queue A → ℕ → List A → Queue A × Poll (Option A)
  poll_head q waker [] =
      if q.is_closed then (q, ready none) else (record q { waiting = some waker }, pending)
  poll_head q waker (x ∷ xs) = (record q { items = xs }, ready (some x))

  unfoldable pub perform_list : ℕ → Op A → Queue A → Queue A × Option ℕ × Reply A
  perform_list capacity (sends item) q =
      if ltb (length q.items) capacity
      then (record q { items = q.items ++ item ∷ []; waiting = none }, q.waiting, sent (ok tt))
      else (q, none, sent (err item))
  perform_list capacity (overwrites item) q =
      if ltb (length q.items) capacity
      then (record q { items = q.items ++ item ∷ []; waiting = none }, q.waiting, displaced none)
      else over q q.items item
  perform_list capacity counts q = (q, none, counted (length q.items))
  perform_list capacity drops q =
      (record q { is_closed = true; waiting = none }, q.waiting, dropped)
  perform_list capacity receives q = ((head q q.items).0, none, received (head q q.items).1)
  perform_list capacity (polls waker) q =
      ((poll_head q waker q.items).0, none, polled (poll_head q waker q.items).1)

  unfoldable pub run_list : ℕ → List (Op A) → Queue A → Queue A × List (Option ℕ × Reply A)
  unfolding perform_list
  run_list capacity [] q = (q, [])
  run_list capacity (op ∷ ops) q =
      let (t, w, a) = perform_list capacity op q in
      ((run_list capacity ops t).0, (w, a) ∷ (run_list capacity ops t).1)
