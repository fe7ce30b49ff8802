-- ===== src/Exceptions.antt =====
-- include/zthread/Exceptions.h: the exceptions that the modelled functions throw, and the result of
-- a function that may throw.
pub data Exception : Type 0 where
  interrupted synchronization deadlock invalid_op timeout : Exception
  cancellation no_such_element broken_barrier : Exception

pub data Result {ℓ} (A : Type ℓ) : Type ℓ where
  ok : A → Result A
  throw : Exception → Result A
