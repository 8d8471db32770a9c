-- ===== src/Runtime/Times.antt =====
-- What `datetime_to_epoch_ns` of custom_components/hass_questdb_writer/runtime.py makes of a time.
use mathlib.Core.Path.{subst}
use hass_questdb_writer.Prelude.{
  ℕ, suc, ◌+◌, ◌*◌, ◌≡◌, ap, Option, none, some, leb, ℤ, pos, negsuc, arith,
}
use hass_questdb_writer.Worker.Accounting.{if_cases}
use hass_questdb_writer.Runtime.{Delta, minus, delta_ns, datetime_to_epoch_ns}

-- `k` is `there - back`.
abbrev pub IsDifference : ℕ → ℕ → ℤ → Type 0
IsDifference there back (pos k) = k + back ≡ there
IsDifference there back (negsuc k) = there + (k + 1) ≡ back

abbrev pub days_before : ℤ → ℕ
days_before (pos n) = 0
days_before (negsuc n) = n + 1

abbrev pub days_after : ℤ → ℕ
days_after (pos n) = n
days_after (negsuc n) = 0

-- The nanoseconds since the epoch of a time with a zone.
abbrev pub IsTime : Option Delta → ℤ → Type 0
IsTime none ns = ⊥
IsTime (some d) ns =
    IsDifference ((days_after d.days * 86400 + d.seconds) * 1000000000 + d.microseconds * 1000)
      (days_before d.days * 86400000000000) ns

minus-IsDifference : (there back : ℕ) → IsDifference there back (minus there back)
minus-IsDifference there back =
    if_cases (IsDifference there back) (leb back there) _ _ (λ h. ground (arith, h))
      (λ h. ground (arith, h))

IsDifference-minus : (there back : ℕ) (k : ℤ) → IsDifference there back k → minus there back ≡ k
IsDifference-minus there back (pos k) h = ground (arith, h)
IsDifference-minus there back (negsuc k) h = ground (arith, h)

IsDifference-ap :
    (there there' back back' : ℕ) (k : ℤ)
    → there ≡ there'
    → back ≡ back'
    → IsDifference there back k
    → IsDifference there' back' k
IsDifference-ap there there' back back' (pos k) e f h = omega (arith, e, f, h)
IsDifference-ap there there' back back' (negsuc k) e f h = omega (arith, e, f, h)

delta_ns-IsTime_days :
    (days : ℤ) (seconds microseconds : ℕ)
    → let d : Delta = record { days = days; seconds = seconds; microseconds = microseconds } in
      IsTime (some d) (delta_ns d)
unfolding delta_ns
delta_ns-IsTime_days (pos n) seconds microseconds = omega arith
delta_ns-IsTime_days (negsuc n) seconds microseconds =
    let there : ℕ = seconds * 1000000000 + microseconds * 1000 in
    let back : ℕ = suc n * 86400 * 1000000000 in
    IsDifference-ap there ((0 * 86400 + seconds) * 1000000000 + microseconds * 1000) back
      ((n + 1) * 86400000000000) (minus there back) (omega arith) (omega arith)
      (minus-IsDifference there back)

IsTime-delta_ns_days :
    (days : ℤ) (seconds microseconds : ℕ) (k : ℤ)
    → let d : Delta = record { days = days; seconds = seconds; microseconds = microseconds } in
      IsTime (some d) k → delta_ns d ≡ k
unfolding delta_ns
IsTime-delta_ns_days (pos n) seconds microseconds (pos k) h = ap pos (omega (arith, h))
IsTime-delta_ns_days (pos n) seconds microseconds (negsuc k) h = absurd (omega (arith, h))
IsTime-delta_ns_days (negsuc n) seconds microseconds k h =
    let there : ℕ = seconds * 1000000000 + microseconds * 1000 in
    let back : ℕ = suc n * 86400 * 1000000000 in
    IsDifference-minus there back k (
      IsDifference-ap ((0 * 86400 + seconds) * 1000000000 + microseconds * 1000) there
        ((n + 1) * 86400000000000) back k (omega arith) (omega arith) h)

-- `datetime_to_epoch_ns` is the nanoseconds since the epoch.
pub datetime-IsTime : (o : Option Delta) (k : ℤ) → datetime_to_epoch_ns o ≡ some k → IsTime o k
unfolding datetime_to_epoch_ns
datetime-IsTime none k h = absurd (cc (h))
datetime-IsTime (some d) k h =
    subst (IsTime (some d)) (cc (h)) (delta_ns-IsTime_days d.days d.seconds d.microseconds)

pub IsTime-datetime : (o : Option Delta) (k : ℤ) → IsTime o k → datetime_to_epoch_ns o ≡ some k
unfolding datetime_to_epoch_ns
IsTime-datetime none k h = absurd h
IsTime-datetime (some d) k h = ap some (IsTime-delta_ns_days d.days d.seconds d.microseconds k h)
