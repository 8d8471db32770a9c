-- ===== src/Prelude/Partial.antt =====
-- Do blocks for code that may fail without an exception.
use mathlib.Core.Option.{Option, none, some}

infixl 10 ◌>>=◌
abbrev pub ◌>>=◌ : {A B : Type 0} → Option A → (A → Option B) → Option B
(some a) >>= f = f a
none >>= f = none
