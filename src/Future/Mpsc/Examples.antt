-- ===== src/Future/Mpsc/Examples.antt =====
-- src/future/mpsc.rs: the theorems on channels, with a cell that holds the waker registered last.
use doom_fish_utils.Base.{ℕ, ◌≡◌, refl, ◌⊎◌, inl, List, [], ◌∷◌, ◌++◌, none, some, true, false}
use doom_fish_utils.Future.Waker.{last_waker}
use doom_fish_utils.Future.Mpsc.Fifo.{Op, receives, closes, drops_receiver, run, run-fifo}
use doom_fish_utils.Future.Mpsc.World.{
  parked, World, start, Step, sends, polls, registers, looks_again, is_pending, Reach, here, next,
}
use doom_fish_utils.Future.Mpsc.Wake.{no_lost_wake}
use doom_fish_utils.Future.Mpsc.{State, Channel, new, channel, send, try_recv}

-- A receiver has gone to sleep with the waker 3, and a value has come in since.
abbrev asleep : World ℕ last_waker
asleep = record {
  state = record { queue = 7 ∷ []; capacity = 1; senders = 1; is_open = true };
  cell = some 3;
  phase = parked;
  owed = 1;
  waker = 3;
  woken = false;
}

asleep-Reach : Reach last_waker (start last_waker 0) asleep
unfolding start channel new try_recv send
asleep-Reach =
    next (next (next (next here (polls _ 3 (inl refl))) (registers _ refl)) (looks_again _ refl))
      (sends _ 7)

asleep-ready : is_pending (try_recv asleep.state).1 ≡ false
unfolding try_recv
asleep-ready = refl

no_lost_wake_example :
    (false ≡ true) ⊎ ((v : World ℕ last_waker) × Step last_waker asleep v × (v.woken ≡ true))
no_lost_wake_example = no_lost_wake last_waker 0 asleep asleep-Reach refl asleep-ready

abbrev waiting : State ℕ
waiting = record { queue = 1 ∷ []; capacity = 2; senders = 1; is_open = true }

abbrev calls : List (Op ℕ)
calls = Op.sends 2 ∷ receives ∷ Op.sends 3 ∷ Op.sends 4 ∷ closes ∷ drops_receiver ∷ []

run-fifo_example :
    1 ∷ (run waiting calls).1.0 ≡ (run waiting calls).1.1 ++ (run waiting calls).0.queue
run-fifo_example = run-fifo calls waiting

abbrev open_channel : Channel ℕ last_waker
open_channel = record { state = waiting; receiver_waker = none }
