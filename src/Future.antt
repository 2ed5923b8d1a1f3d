-- ===== src/Future.antt =====
-- src/future: the channels, the lock and the combinators of futures.
pub mod Waker
pub mod Mpsc
pub mod Mutex
pub mod Oneshot
pub mod Combinators

-- `std::task::Poll`.
pub data Poll {ℓ} (A : Type ℓ) : Type ℓ where
  ready : A → Poll A
  pending : Poll A
