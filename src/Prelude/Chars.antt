-- ===== src/Prelude/Chars.antt =====
-- Python's text operations on code points: literals, `str.replace` with a text of one character,
-- `str.join`, and the decimal print of an `int`.
use Prim.Native.Nat.{ℕ, zero, suc, ◌+◌, ◌/◌, ◌%◌, ◌<◌}
use Prim.Native.Char.{code}
use Prim.Native.String.{String}
use mathlib.Core.List.{List, [], ◌∷◌, ◌++◌, flat_map}
use mathlib.Core.Logic.{dite}
use mathlib.Core.WellFounded.{Acc, WellFounded}
use native.Mathlib.Decide.{dec_lt}
use native.Mathlib.Omega.{arith}
use hass_questdb_writer.Prelude.Tests.{◌==◌, if◌then◌else◌}
use hass_questdb_writer.Prelude.Int.{ℤ, pos, negsuc}
use hass_questdb_writer.Prelude.Texts.{Text}

-- A literal, as its code points.
abbrev pub codes : String → Text
codes String.[] = []
codes (String.◌∷◌ c s) = code c ∷ codes s

unfoldable pub replace_one : ℕ → Text → ℕ → Text
replace_one c t d = if d == c then t else d ∷ []

-- `s.replace(c, t)`
unfoldable pub replace : ℕ → Text → Text → Text
unfolding replace_one flat_map
replace c t = flat_map (replace_one c t)

-- `sep.join(ts)`
unfoldable pub join : Text → List Text → Text
join sep [] = []
join sep (t ∷ []) = t
join sep (t ∷ u ∷ ts) = t ++ (sep ++ join sep (u ∷ ts))

acc_below : (k n : ℕ) → n < k → Acc ◌<◌ n
acc_below zero n h = absurd (omega arith)
acc_below (suc k) n h = Acc.intro n λ m lt. acc_below k m (omega arith)

unfoldable pub lt_wf : WellFounded ◌<◌
unfolding acc_below
lt_wf = record { apply = λ n. acc_below (suc n) n (omega arith) }

pub tenth_lt : {n : ℕ} → 9 < n → n / 10 < n
tenth_lt h = omega arith

-- The digits of a number, the last first.
unfoldable pub digits_on : (n : ℕ) → Acc ◌<◌ n → Text → Text
digits_on n (Acc.intro _ smaller) out =
    dite (dec_lt 9 n)
      (λ h. digits_on (n / 10) (smaller (n / 10) (tenth_lt h)) ((b'0' + n % 10) ∷ out))
      (λ _. (b'0' + n) ∷ out)

-- `str(n)` of a number that is not negative
unfoldable pub decimal : ℕ → Text
unfolding digits_on dec_lt lt_wf
decimal n = digits_on n (lt_wf.apply n) []

-- `str(n)`
unfoldable pub integer : ℤ → Text
unfolding decimal
integer (pos n) = decimal n
integer (negsuc n) = b'-' ∷ decimal (suc n)
