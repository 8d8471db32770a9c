-- ===== src/Prelude/Fallible.antt =====
-- Do blocks for pure code that may raise.
use mathlib.Core.Path.{◌≡◌, refl}
use hass_questdb_writer.Prelude.Results.{Result, ok, err}

infixl 10 ◌>>=◌
abbrev pub ◌>>=◌ : {E A B : Type 0} → Result E A → (A → Result E B) → Result E B
(ok a) >>= f = f a
(err e) >>= f = err e

pub bind-ok :
    {E A B : Type 0} (m : Result E A) (f : A → Result E B) (b : B)
    → (m >>= f) ≡ ok b
    → (a : A) × (m ≡ ok a) × (f a ≡ ok b)
bind-ok (ok a) f b e = (a, refl, e)
bind-ok (err x) f b e = absurd (cc (e))
