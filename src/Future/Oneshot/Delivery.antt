-- ===== src/Future/Oneshot/Delivery.antt =====
-- src/future/oneshot.rs: a receiver gets the value that was sent, in every order of the sections.
use doom_fish_utils.Base.{
  ◌≡◌, refl, sym, ◌∙◌, ap, ◌⊎◌, Bool-cases, inl, inr, Option, none, some, Bool, true, false,
  if◌then◌else◌, Result, ok, err,
}
use doom_fish_utils.Future.{Poll, ready, pending}
use doom_fish_utils.Future.Waker.{AtomicWaker}
use doom_fish_utils.Future.Oneshot.{
  State, Canceled, canceled_error, channel, take, send, drop_sender, drop_receiver,
}
use doom_fish_utils.Future.Oneshot.World.{
  Phase, idle, looked, registered, parked, answered, gone, Sender, holding, leaving, owing, done,
  World, take_cases, start, look, Step, sends, drops_sender, wakes, polls, registers, looks_again,
  drops_receiver, Reach, here, next,
}

-- The receiver is there, and has had no answer.
abbrev pub is_asking : Phase → Bool
is_asking idle = true
is_asking looked = true
is_asking registered = true
is_asking parked = true
is_asking answered = false
is_asking gone = false

-- The sender was dropped.
abbrev pub is_dropped : Sender → Bool
is_dropped holding = false
is_dropped leaving = false
is_dropped owing = true
is_dropped done = true

module _ {ℓ} {A : Type ℓ} where
  -- What a receiver is told of the offer.
  abbrev pub of_offer : Option A → Result A Canceled
  of_offer (some v) = ok v
  of_offer none = err canceled_error

  -- And with a poll that may have to wait for it.
  unfoldable pub told : Option A → Bool → Poll (Result A Canceled)
  told (some v) dropped = ready (ok v)
  told none dropped = if dropped then ready (err canceled_error) else pending

  send-listening :
      (s : State A) (v : A)
      → s.receiver_dropped ≡ false
      → send s v ≡ (record s { value = some v }, ok tt)
  unfolding send
  send-listening s v e = ap (λ b. if b then (s, err v) else (record s { value = some v }, ok tt)) e

module _ {ℓ} {A : Type ℓ} where
  send-dropped : (s : State A) (v : A) → (send s v).0.sender_dropped ≡ s.sender_dropped
  unfolding send
  send-dropped s v = elim (Bool-cases s.receiver_dropped) [ inl e ↦ rw e refl | inr e ↦ rw e refl ]

module _ {ℓ} {A : Type ℓ} (W : AtomicWaker) where
  record IsSound (w : World A W) : Type ℓ where
    no_answer : is_asking w.phase ≡ true → w.answer ≡ none
    value_eq : is_asking w.phase ≡ true → w.state.value ≡ w.offered
    dropped_eq : w.state.sender_dropped ≡ is_dropped w.sender
    listening : is_asking w.phase ≡ true → w.state.receiver_dropped ≡ false
    unspent :
        w.sender ≡ holding
        → (w.offered ≡ none) × (w.answer ≡ none) × (w.state.sender_dropped ≡ false)
    answer_eq : (r : Result A Canceled) → w.answer ≡ some r → r ≡ of_offer w.offered

  look-IsSound :
      (w : World A W) (after : Phase)
      → is_asking w.phase ≡ true
      → is_asking after ≡ true
      → IsSound w
      → IsSound (look W w after)
  look-IsSound w after p n h = elim (take_cases w.state) [
    | inl (v, e, f) ↦
        let o : w.offered ≡ some v = sym (h.value_eq p) ∙ e in
        rw f (record {
          no_answer = λ c. cc (c);
          value_eq = λ c. cc (c);
          dropped_eq = h.dropped_eq;
          listening = λ c. cc (c);
          unspent = λ c. let z : none ≡ some v = sym (h.unspent c).0 ∙ o in cc (z);
          answer_eq = λ r c. let z : of_offer w.offered ≡ ok v = ap of_offer o in cc (c, z);
        })
    | inr (inl (e, d, f)) ↦
        let o : w.offered ≡ none = sym (h.value_eq p) ∙ e in
        rw f (record {
          no_answer = λ c. cc (c);
          value_eq = λ c. cc;
          dropped_eq = h.dropped_eq;
          listening = λ c. cc (c);
          unspent = λ c. let z : true ≡ false = sym d ∙ (h.unspent c).2 in cc (z);
          answer_eq =
              λ r c. let z : of_offer w.offered ≡ err canceled_error = ap of_offer o in cc (c, z);
        })
    | inr (inr (e, d, f)) ↦ rw f (record {
      no_answer = λ _. h.no_answer p;
      value_eq = λ _. h.value_eq p;
      dropped_eq = h.dropped_eq;
      listening = λ _. h.listening p;
      unspent = h.unspent;
      answer_eq = h.answer_eq;
    })
  ]

  asking : (w : World A W) → (w.phase ≡ idle) ⊎ (w.phase ≡ parked) → is_asking w.phase ≡ true
  asking w (inl e) = ap is_asking e
  asking w (inr e) = ap is_asking e

  Step-IsSound : {w v : World A W} → Step W w v → IsSound w → IsSound v
  unfolding drop_sender drop_receiver
  Step-IsSound (sends w value e) h =
      let (o, a, d) = h.unspent e in
      record {
        no_answer = h.no_answer;
        value_eq = λ p. ap (λ r. r.0.value) (send-listening w.state value (h.listening p));
        dropped_eq = send-dropped w.state value ∙ d;
        listening = λ p.
            ap (λ r. r.0.receiver_dropped) (send-listening w.state value (h.listening p))
            ∙ h.listening p;
        unspent = λ c. cc (c);
        answer_eq = λ r c. cc (c, a);
      }
  Step-IsSound (drops_sender w e) h = record {
    no_answer = h.no_answer;
    value_eq = h.value_eq;
    dropped_eq = refl;
    listening = h.listening;
    unspent = λ c. cc (c);
    answer_eq = h.answer_eq;
  }
  Step-IsSound (wakes w e) h = record {
    no_answer = h.no_answer;
    value_eq = h.value_eq;
    dropped_eq = h.dropped_eq ∙ ap is_dropped e;
    listening = h.listening;
    unspent = λ c. cc (c);
    answer_eq = h.answer_eq;
  }
  Step-IsSound (polls w waker e) h = look-IsSound _ looked (asking w e) refl (record {
    no_answer = h.no_answer;
    value_eq = h.value_eq;
    dropped_eq = h.dropped_eq;
    listening = h.listening;
    unspent = h.unspent;
    answer_eq = h.answer_eq;
  })
  Step-IsSound (registers w e) h =
      let p : is_asking w.phase ≡ true = ap is_asking e in
      record {
        no_answer = λ _. h.no_answer p;
        value_eq = λ _. h.value_eq p;
        dropped_eq = h.dropped_eq;
        listening = λ _. h.listening p;
        unspent = h.unspent;
        answer_eq = h.answer_eq;
      }
  Step-IsSound (looks_again w e) h = look-IsSound w parked (ap is_asking e) refl h
  Step-IsSound (drops_receiver w e) h = record {
    no_answer = λ c. cc (c);
    value_eq = λ c. cc (c);
    dropped_eq = h.dropped_eq;
    listening = λ c. cc (c);
    unspent = h.unspent;
    answer_eq = h.answer_eq;
  }

  Reach-IsSound : {w : World A W} → Reach W (start W) w → IsSound w
  unfolding start channel
  Reach-IsSound here = record {
    no_answer = λ _. refl;
    value_eq = λ _. refl;
    dropped_eq = refl;
    listening = λ _. refl;
    unspent = λ _. (refl, refl, refl);
    answer_eq = λ r c. cc (c);
  }
  Reach-IsSound (next r st) = Step-IsSound st (Reach-IsSound r)

  -- From a new channel on, in whatever order the sections of the two sides run, an answer that the
  -- receiver got is the value that `send` was called with, or the error if it was not called.
  pub answer_is_offer :
      (w : World A W) (r : Result A Canceled)
      → Reach W (start W) w
      → w.answer ≡ some r
      → r ≡ of_offer w.offered
  answer_is_offer w r c e = (Reach-IsSound c).answer_eq r e

  -- From a new channel on, in whatever order the sections run, a look of a receiver that is there and has
  -- had no answer gives the value that `send` was called with; if it was not called, the look gives the
  -- error once the section of the sender's drop has run, and has to wait before.
  pub look_is_told :
      (w : World A W)
      → Reach W (start W) w
      → is_asking w.phase ≡ true
      → (take w.state).1 ≡ told w.offered (is_dropped w.sender)
  unfolding told
  look_is_told w c p =
      let h : IsSound w = Reach-IsSound c in
      elim (take_cases w.state) [
        | inl (v, e, f) ↦ rw (f, sym (h.value_eq p) ∙ e) refl
        | inr (inl (e, d, f)) ↦ rw (f, sym (h.value_eq p) ∙ e, sym h.dropped_eq ∙ d) refl
        | inr (inr (e, d, f)) ↦ rw (f, sym (h.value_eq p) ∙ e, sym h.dropped_eq ∙ d) refl
      ]
