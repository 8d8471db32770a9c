-- ===== src/AttributeFilter/Patterns.antt =====
-- What `parse_attribute_patterns` of custom_components/hass_questdb_writer/attribute_filter.py
-- returns.
use hass_questdb_writer.Prelude.{
  ℕ, ◌≡◌, refl, Bool, false, Option, none, some, List, [], ◌∷◌, ◌++◌, ◌==◌, if◌then◌else◌, any_of,
  any_of-append, All, All-append, Text, text_eq, text_eq_iff, is_empty, arith, Bool-cases, inl, inr,
}
use hass_questdb_writer.AttributeFilter.{
  is_space, strip_start, strip_end, strip, grow, split, setdefault, add_patterns,
  parse_attribute_patterns,
}

-- A text that `strip` leaves as it is: no space at either end.
unfoldable pub starts_with_space : Text → Bool
starts_with_space [] = false
starts_with_space (c ∷ s) = is_space c

unfoldable pub ends_with_space : Text → Bool
ends_with_space [] = false
ends_with_space (c ∷ s) = if is_empty s then is_space c else ends_with_space s

-- A pattern: neither empty nor with a space at an end or a comma.
abbrev pub IsPattern : Text → Type 0
IsPattern p =
    (is_empty p ≡ false)
    × (starts_with_space p ≡ false)
    × (ends_with_space p ≡ false)
    × (any_of (λ c. c == b',') p ≡ false)

-- No text twice.
abbrev pub AreDistinct : List Text → Type 0
AreDistinct [] = Unit {0}
AreDistinct (t ∷ ts) = (any_of (text_eq t) ts ≡ false) × AreDistinct ts

strip_start-space : (s : Text) → starts_with_space (strip_start s) ≡ false
unfolding strip_start starts_with_space
strip_start-space [] = refl
strip_start-space (c ∷ s) = ground (arith, strip_start-space s)

strip_end-space : (s : Text) → ends_with_space (strip_end s) ≡ false
unfolding strip_end ends_with_space
strip_end-space [] = refl
strip_end-space (c ∷ s) = ground (arith, strip_end-space s)

strip_end-start : (s : Text) → starts_with_space s ≡ false → starts_with_space (strip_end s) ≡ false
unfolding strip_end starts_with_space
strip_end-start [] h = refl
strip_end-start (c ∷ s) h = ground (arith, h)

strip_start-comma :
    (s : Text) → any_of (λ c. c == b',') s ≡ false → any_of (λ c. c == b',') (strip_start s) ≡ false
unfolding strip_start any_of
strip_start-comma [] h = refl
strip_start-comma (c ∷ s) h = ground (arith, h, strip_start-comma s)

strip_end-comma :
    (s : Text) → any_of (λ c. c == b',') s ≡ false → any_of (λ c. c == b',') (strip_end s) ≡ false
unfolding strip_end any_of
strip_end-comma [] h = refl
strip_end-comma (c ∷ s) h = ground (arith, h, strip_end-comma s)

strip-IsPattern :
    (s : Text)
    → any_of (λ c. c == b',') s ≡ false
    → is_empty (strip s) ≡ false
    → IsPattern (strip s)
unfolding strip
strip-IsPattern s h full = (
  full,
  strip_end-start (strip_start s) (strip_start-space s),
  strip_end-space (strip_start s),
  strip_end-comma (strip_start s) (strip_start-comma s h),
)

grow-comma :
    (d : ℕ) (ts : List Text)
    → (d == b',') ≡ false
    → All (λ t. any_of (λ c. c == b',') t ≡ false) ts
    → All (λ t. any_of (λ c. c == b',') t ≡ false) (grow d ts)
unfolding any_of
grow-comma d [] h all = (rw h refl, tt)
grow-comma d (t ∷ ts) h all = (rw h all.0, all.1)

split-comma : (s : Text) → All (λ t. any_of (λ c. c == b',') t ≡ false) (split b',' s)
unfolding split any_of
split-comma [] = (refl, tt)
split-comma (d ∷ s) = elim (Bool-cases (d == b',')) [
  | inl e ↦ rw e (refl, split-comma s)
  | inr e ↦ rw e (grow-comma d (split b',' s) e (split-comma s))
]

append-AreDistinct :
    (ts : List Text) (t : Text)
    → AreDistinct ts
    → any_of (text_eq t) ts ≡ false
    → AreDistinct (ts ++ t ∷ [])
unfolding any_of
append-AreDistinct [] t d h = (refl, tt)
append-AreDistinct (u ∷ ts) t d h = (
  ground (arith, d.0, h, any_of-append (text_eq u) ts (t ∷ []), text_eq_iff u t, text_eq_iff t u),
  append-AreDistinct ts t d.1 (ground (arith, h)),
)

setdefault-AreDistinct :
    (key : Text) (seen : List Text) → AreDistinct seen → AreDistinct (setdefault key seen)
unfolding setdefault
setdefault-AreDistinct key seen d = elim (Bool-cases (any_of (text_eq key) seen)) [
  | inl e ↦ rw e d
  | inr e ↦ rw e (append-AreDistinct seen key d e)
]

setdefault-IsPattern :
    (key : Text) (seen : List Text)
    → IsPattern key
    → All IsPattern seen
    → All IsPattern (setdefault key seen)
unfolding setdefault
setdefault-IsPattern key seen p all = elim (Bool-cases (any_of (text_eq key) seen)) [
  | inl e ↦ rw e all
  | inr e ↦ rw e (All-append IsPattern seen (key ∷ []) all (p, tt))
]

-- A property of the patterns so far that a new pattern keeps.
add_patterns-keeps :
    (P : List Text → Type 0)
    → ((key : Text) (seen : List Text) → IsPattern key → P seen → P (setdefault key seen))
    → (seen parts : List Text) → All (λ t. any_of (λ c. c == b',') t ≡ false) parts
    → P seen
    → P (add_patterns seen parts)
unfolding add_patterns
add_patterns-keeps P step seen [] all p = p
add_patterns-keeps P step seen (part ∷ parts) all p =
    add_patterns-keeps P step (if is_empty (strip part) then seen else setdefault (strip part) seen)
      parts all.1
      (elim (Bool-cases (is_empty (strip part))) [
        | inl e ↦ rw e p
        | inr e ↦ rw e (step (strip part) seen (strip-IsPattern part all.0 e) p)
      ])

-- The patterns of any form input are distinct, and none is empty, starts or ends with a space, or
-- holds a comma.
pub parse_attribute_patterns_lem :
    (value : Option Text)
    → All IsPattern (parse_attribute_patterns value) × AreDistinct (parse_attribute_patterns value)
unfolding parse_attribute_patterns
parse_attribute_patterns_lem none = (tt, tt)
parse_attribute_patterns_lem (some []) = (tt, tt)
parse_attribute_patterns_lem (some (c ∷ s)) = (
  add_patterns-keeps (All IsPattern) setdefault-IsPattern [] (split b',' (c ∷ s))
      (split-comma (c ∷ s)) tt,
  add_patterns-keeps AreDistinct (λ key seen _. setdefault-AreDistinct key seen) []
      (split b',' (c ∷ s)) (split-comma (c ∷ s)) tt,
)
