-- ===== src/Future/Waker.antt =====
-- src/atomic_waker, an adapted copy of the futures-util crate, at what the channels call of it: a cell
-- that holds the waker registered last, until it is taken to be woken. A waker is a number.
use doom_fish_utils.Base.{ℕ, Option, none, some, ◌≡◌, refl}

pub record AtomicWaker : Type 1 where
  pub Cell : Type 0
  pub new : Cell
  pub register : Cell → ℕ → Cell
  pub take : Cell → Cell × Option ℕ
  pub held : Cell → Option ℕ
  pub held-new : held new ≡ none
  pub held-register : (c : Cell) (w : ℕ) → held (register c w) ≡ some w
  pub held-take : (c : Cell) → held (take c).0 ≡ none
  pub take_held : (c : Cell) → (take c).1 ≡ held c

-- A cell that is the waker itself.
abbrev pub last_waker : AtomicWaker
last_waker = record {
  Cell = Option ℕ;
  new = none;
  register = λ c w. some w;
  take = λ c. (none, c);
  held = λ c. c;
  held-new = refl;
  held-register = λ c w. refl;
  held-take = λ c. refl;
  take_held = λ c. refl;
}
