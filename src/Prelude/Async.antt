-- ===== src/Prelude/Async.antt =====
-- `std::task::Poll`, with the outcome of a `poll` that panics.
pub data Poll {ℓ} (A : Type ℓ) : Type ℓ where
  ready : A → Poll A
  pending : Poll A
  panicked : Poll A
