-- ===== src/Common/Results.antt =====
-- A computation that returns or throws, as JavaScript's do.

pub data Result (E : Type 0) (A : Type 0) : Type 0 where
  ok : A → Result E A
  throw : E → Result E A

-- What was thrown skips the rest of the calls.
infixl 5 ◌>>=◌
abbrev pub ◌>>=◌ : {E A B : Type 0} → Result E A → (A → Result E B) → Result E B
throw reason >>= next = throw reason
ok value >>= next = next value
