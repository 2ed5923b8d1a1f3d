-- ===== src/Future/Oneshot/Examples.antt =====
-- src/future/oneshot.rs: a receiver that waits, a value that is sent, and the answer.
use doom_fish_utils.Base.{ℕ, ◌≡◌, refl, ◌⊎◌, inl, inr, none, some, true, false, ok}
use doom_fish_utils.Future.Waker.{last_waker}
use doom_fish_utils.Future.Oneshot.{channel, take, send, drop_sender}
use doom_fish_utils.Future.Oneshot.World.{
  parked, answered, leaving, owing, World, is_pending, start, Step, sends, drops_sender, polls,
  registers, looks_again, Reach, here, next,
}
use doom_fish_utils.Future.Oneshot.Wake.{waiting_is_woken}
use doom_fish_utils.Future.Oneshot.Delivery.{told, is_dropped, look_is_told}

-- The receiver waits with the waker 3, and 7 has been sent.
abbrev asleep : World ℕ last_waker
asleep = record {
  state = record { value = some 7; sender_dropped = false; receiver_dropped = false };
  cell = some 3;
  sender = leaving;
  phase = parked;
  offered = some 7;
  answer = none;
  waker = 3;
  woken = false;
}

asleep-Reach : Reach last_waker (start last_waker) asleep
unfolding start channel take send
asleep-Reach =
    next (next (next (next here (polls _ 3 (inl refl))) (registers _ refl)) (looks_again _ refl))
      (sends _ 7 refl)

asleep-ready : is_pending (take asleep.state).1 ≡ false
unfolding take
asleep-ready = refl

waiting_is_woken_example :
    (false ≡ true)
    ⊎ ((v : World ℕ last_waker) × Step last_waker asleep v × (v.woken ≡ true))
    ⊎ ((v u : World ℕ last_waker) × Step last_waker asleep v
        × Step last_waker v u
        × (u.woken ≡ true))
waiting_is_woken_example = waiting_is_woken last_waker asleep asleep-Reach refl asleep-ready

look_is_told_example : (take asleep.state).1 ≡ told (some 7) (is_dropped leaving)
look_is_told_example = look_is_told last_waker asleep asleep-Reach refl

-- The sender is gone without a wake yet, and the receiver was polled again.
abbrev served : World ℕ last_waker
served = record {
  state = record { value = none; sender_dropped = true; receiver_dropped = false };
  cell = some 3;
  sender = owing;
  phase = answered;
  offered = some 7;
  answer = some (ok 7);
  waker = 4;
  woken = false;
}

served-Reach : Reach last_waker (start last_waker) served
unfolding take drop_sender
served-Reach = next (next asleep-Reach (drops_sender _ (inr refl))) (polls _ 4 (inr refl))
