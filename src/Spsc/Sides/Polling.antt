-- ===== src/Spsc/Sides/Polling.antt =====
-- src/spsc.rs: `pop` and `poll_pop` of the consumer of a ring that holds a list.
use doom_fish_utils.Base.{ℕ, ◌≡◌, ap, ◌∙◌, [], ◌∷◌, List, none, some, true, false, if◌then◌else◌}
use doom_fish_utils.Future.{ready, pending}
use doom_fish_utils.Future.Waker.{AtomicWaker}
use doom_fish_utils.Spsc.Refine.{Represents}
use doom_fish_utils.Spsc.Pop.{taken_out, pop-item, pop-empty}
use doom_fish_utils.Spsc.Sides.{
  Inner, receive, received, last_pop, poll_again, poll_first, poll_pop,
}

module _ {ℓ} {A : Type ℓ} (W : AtomicWaker) (s : Inner A W) (cap : ℕ) where
  pub receive-item :
      (x : A) (xs : List A)
      → Represents s.queue cap (x ∷ xs)
      → receive W s ≡ some (record s { queue = taken_out s.queue }, some x)
  unfolding receive
  receive-item x xs h = ap (received W s) (pop-item s.queue cap x xs h)

  pub receive-empty : Represents s.queue cap [] → receive W s ≡ some (s, none)
  unfolding receive
  receive-empty h = ap (received W s) (pop-empty s.queue cap h)

  pub poll-item :
      (waker : ℕ) (x : A) (xs : List A)
      → Represents s.queue cap (x ∷ xs)
      → poll_pop W s waker ≡ some (record s { queue = taken_out s.queue }, ready (some x))
  unfolding poll_pop
  poll-item waker x xs h = ap (λ o. poll_first W o waker) (receive-item x xs h)

  pub poll-closed :
      (waker : ℕ)
      → Represents s.queue cap []
      → s.producer_closed ≡ true
      → poll_pop W s waker ≡ some (s, ready none)
  unfolding poll_pop
  poll-closed waker h c =
      ap (λ o. poll_first W o waker) (receive-empty h)
      ∙ ap
          (λ b.
            if b
            then last_pop W (receive W s)
            else poll_again W (receive W (record s { waker = W.register s.waker waker })))
          c
      ∙ ap (last_pop W) (receive-empty h)

module _ {ℓ} {A : Type ℓ} (W : AtomicWaker) (s : Inner A W) (cap : ℕ) where
  pub poll-open :
      (waker : ℕ)
      → Represents s.queue cap []
      → s.producer_closed ≡ false
      → poll_pop W s waker ≡ some (record s { waker = W.register s.waker waker }, pending)
  unfolding poll_pop
  poll-open waker h c =
      let t : Inner A W = record s { waker = W.register s.waker waker } in
      ap (λ o. poll_first W o waker) (receive-empty W s cap h)
      ∙ ap (λ b. if b then last_pop W (receive W s) else poll_again W (receive W t)) c
      ∙ ap (poll_again W) (receive-empty W t cap h)
      ∙ ap (λ b. if b then last_pop W (receive W t) else some (t, pending)) c
