-- ===== src/Stream/Wake.antt =====
-- src/stream.rs: a future that waits is woken by the next item, and by the end of the stream.
use mathlib.Core.List.{Mem, mem-cons}
use mathlib.Core.Logic.Or
use doom_fish_utils.Base.{
  ℕ, take, ◌+◌, ◌-◌, ◌%◌, ◌^◌, ◌≡◌, refl, subst, List, [], ◌∷◌, Option, some, true, false, ◌==◌,
  if◌then◌else◌, Bool-cases, inl, inr, returned, leb, length,
}
use doom_fish_utils.Stream.Registry.{find}
use doom_fish_utils.Stream.Polling.{poll_next_item_lem}
use doom_fish_utils.Stream.{
  Shared, Pushed, blocked, refused, stored, wakers, push, push_or_block, poll_next_item,
  drop_sender,
}

-- The waker that is registered is among those that are called.
find-Mem : (id waker : ℕ) (ws : List (ℕ × ℕ)) → find id ws ≡ some waker → Mem waker (wakers ws)
unfolding find
find-Mem id waker [] e = cc (e)
find-Mem id waker ((i, k) ∷ ws) e = elim (Bool-cases (i == id)) [
  | inl f ↦
      let p : some k ≡ some waker =
        subst (λ b. (if b then some k else find id ws) ≡ some waker) f e in
      let q : waker ≡ k = cc (p) in mem-cons.1 (Or.inl q)
  | inr f ↦
      let p : find id ws ≡ some waker =
        subst (λ b. (if b then some k else find id ws) ≡ some waker) f e in
      mem-cons.1 (Or.inr (find-Mem id waker ws p))
]

module _ {ℓ} {A : Type ℓ} where
  push-wakers :
      (sh : Shared A) (x : A)
      → sh.poisoned ≡ false
      → (gone : List A) × ((push sh x).1 ≡ returned (wakers sh.state.waiters, gone))
  unfolding push
  push-wakers sh x p =
      (if leb sh.capacity (length sh.state.buffer) then take 1 sh.state.buffer else [], rw p refl)

  -- What a blocking push does on an empty buffer, with these wakers to call.
  abbrev pub pushed_on_empty : Shared A → A → List ℕ → Pushed A
  pushed_on_empty sh x woken =
      if sh.state.consumer_gone
      then refused x
      else if leb sh.capacity 0
      then blocked
      else stored woken

  push_or_block-wakers :
      (sh : Shared A) (x : A)
      → sh.poisoned ≡ false
      → sh.state.buffer ≡ []
      → (push_or_block sh x).1 ≡ returned (pushed_on_empty sh x (wakers sh.state.waiters))
  unfolding push_or_block
  push_or_block-wakers sh x p b = elim (Bool-cases sh.state.consumer_gone) [
    | inl e ↦ rw (p, b, e) refl
    | inr e ↦ elim (Bool-cases (leb sh.capacity 0)) [
      | inl f ↦ rw (p, b, e, f) refl
      | inr f ↦ rw (p, b, e, f) refl
    ]
  ]

  drop_sender-wakers :
      (sh : Shared A) → sh.state.sender_count ≡ 1 → (drop_sender sh).1 ≡ wakers sh.state.waiters
  unfolding drop_sender
  drop_sender-wakers sh e =
      let f : ((sh.state.sender_count + (2 ^ 64 - 1)) % 2 ^ 64 == 0) ≡ true = rw e refl in rw f refl

  -- After a poll that finds a stream that is not poisoned open and with no item, the next push
  -- calls the waker of that poll, and so do a blocking push that stores its item, which it does unless
  -- the consumer is gone or the capacity is 0, and the drop of the last sender.
  pub poll-wakes :
      (sh : Shared A) (waiter : Option ℕ) (waker : ℕ)
      → sh.poisoned ≡ false
      → sh.state.buffer ≡ []
      → sh.state.closed ≡ false
      → ((x : A)
          → (woken : List ℕ) × (gone : List A) × ((push (poll_next_item sh waiter waker).0 x).1
              ≡ returned (woken, gone))
            × Mem waker woken)
        × ((x : A)
            → (woken : List ℕ) × ((push_or_block (poll_next_item sh waiter waker).0 x).1
                ≡ returned (pushed_on_empty sh x woken))
              × Mem waker woken)
        × (sh.state.sender_count ≡ 1 → Mem waker (drop_sender (poll_next_item sh waiter waker).0).1)
  poll-wakes sh waiter waker p b c = elim (poll_next_item_lem sh waiter waker p) [
    | inl (x, xs, ws, e, _, _) ↦ cc (b, e)
    | inr (inl (ws, e, d, _, _)) ↦ cc (c, d)
    | inr (inr (ws, n, id, e, d, q, f)) ↦ rw q (
      λ x.
          (let (gone, r) =
              push-wakers (record sh { state = record sh.state { waiters = ws; next_waiter = n } })
                x p in
            (wakers ws, gone, r, find-Mem id waker ws f)),
      λ x. (
        wakers ws,
        push_or_block-wakers
            (record sh { state = record sh.state { waiters = ws; next_waiter = n } }) x p b,
        find-Mem id waker ws f,
      ),
      λ one.
          rw
            (drop_sender-wakers
              (record sh { state = record sh.state { waiters = ws; next_waiter = n } }) one)
            (find-Mem id waker ws f),
    )
  ]
