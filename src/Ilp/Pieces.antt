-- ===== src/Ilp/Pieces.antt =====
-- The reader on the pieces of a row of custom_components/hass_questdb_writer/ilp.py.
use mathlib.Core.List.{flat_map, append_assoc}
use mathlib.Core.Logic.{dite}
use mathlib.Core.WellFounded.{Acc}
use native.Mathlib.Decide.{dec_lt}
use hass_questdb_writer.Prelude.{
  ℕ, zero, suc, ◌+◌, ◌<◌, ◌%◌, ◌/◌, ◌≡◌, refl, true, false, Option, some, List, [], ◌∷◌, ◌++◌, map,
  length, ◌==◌, ℤ, pos, negsuc, Text, arith, All, All-append, ok, Result-cases, is_empty, integer,
  decimal, digits_on, tenth_lt, lt_wf,
}
use hass_questdb_writer.Ilp.{
  FieldValue, null, boolean, micros, int, float, string, symbol_parts, field_parts, row_text, line,
}
use hass_questdb_writer.Ilp.Escapes.{read_until, ends_name, ends_string, hide, read_until-hide}
use hass_questdb_writer.Ilp.Reader.{
  Value, quoted, bare, expect, read_name, read_value, read_symbols, read_field, read_fields,
  present_symbols, value_of, present_fields, is_plain, ArePlainFloats,
}
use hass_questdb_writer.Ilp.Written.{
  name_text, value_text, symbol_text, field_text, commas, join-cons, symbols_text_lem,
  escape_identifier-cases, symbol_parts-ok, field_parts-ok,
}

-- Reading, piece by piece: what ends a name stands behind it.
abbrev pub IsEnd : Text → Type 0
IsEnd [] = ⊥
IsEnd (c ∷ rest) = ends_name c ≡ true

pub commas-IsEnd : (ts : List Text) (rest : Text) → IsEnd rest → IsEnd (commas ts ++ rest)
unfolding commas flat_map ends_name
commas-IsEnd [] rest h = h
commas-IsEnd (t ∷ ts) rest h = refl

pub ends_name-backslash : (c : ℕ) → ends_name c ≡ true → (c == b'\\') ≡ false
unfolding ends_name
ends_name-backslash c h = ground arith

pub read_name-text : (s rest : Text) → IsEnd rest → read_name (name_text s ++ rest) ≡ some (s, rest)
unfolding read_name
read_name-text s [] h = absurd h
read_name-text s (c ∷ rest) h = read_until-hide ends_name s c rest (ends_name-backslash c h) h

pub read_name_plain :
    (s rest : Text)
    → All (λ d. is_plain d ≡ true) s
    → IsEnd rest
    → read_name (s ++ rest) ≡ some (s, rest)
unfolding read_name read_until is_plain
read_name_plain s [] p h = absurd h
read_name_plain [] (c ∷ rest) p h = rw (ends_name-backslash c h, h) refl
read_name_plain (d ∷ s) (c ∷ rest) p h = ground (arith, p.0, read_name_plain s (c ∷ rest) p.1 h)

abbrev pub IsPlain : Value → Type 0
IsPlain (quoted s) = Unit {0}
IsPlain (bare s) = All (λ d. is_plain d ≡ true) s

pub read_value_bare :
    (s rest : Text)
    → All (λ d. is_plain d ≡ true) s
    → IsEnd rest
    → read_value (s ++ rest) ≡ some (bare s, rest)
unfolding read_value is_plain ends_name
read_value_bare s [] p h = absurd h
read_value_bare [] (c ∷ rest) p h = ground (arith, read_name_plain [] (c ∷ rest) p h)
read_value_bare (d ∷ s) (c ∷ rest) p h = ground (arith, p.0, read_name_plain (d ∷ s) (c ∷ rest) p h)

pub read_value-text :
    (v : Value) (rest : Text)
    → IsPlain v
    → IsEnd rest
    → read_value (value_text v ++ rest) ≡ some (v, rest)
unfolding read_value expect
read_value-text (quoted s) rest p h =
    rw
      (
        append_assoc (flat_map (hide ends_string) s) (b'"' ∷ []) rest,
        read_until-hide ends_string s b'"' rest refl refl,
      )
      refl
read_value-text (bare s) rest p h = read_value_bare s rest p h

pub read_field-text :
    (f : Text × Value) (rest : Text)
    → IsPlain f.1
    → IsEnd rest
    → read_field (field_text f ++ rest) ≡ some (f, rest)
unfolding read_field expect
read_field-text f rest p h =
    rw
      (
        append_assoc (name_text f.0) (b'=' ∷ value_text f.1) rest,
        read_name-text f.0 (b'=' ∷ (value_text f.1 ++ rest)) refl,
        read_value-text f.1 rest p h,
      )
      refl

pub read_fields-commas :
    (fs : List (Text × Value)) (n : ℕ) (rest : Text)
    → All (λ f. IsPlain f.1) fs
    → length fs < n
    → read_fields n (commas (map field_text fs) ++ b' ' ∷ rest) ≡ some (fs, b' ' ∷ rest)
unfolding read_fields commas flat_map
read_fields-commas fs zero rest p l = absurd (omega arith)
read_fields-commas [] (suc n) rest p l = refl
read_fields-commas (f ∷ fs) (suc n) rest p l =
    rw
      (
        append_assoc (field_text f) (commas (map field_text fs)) (b' ' ∷ rest),
        read_field-text f _ p.0 (commas-IsEnd (map field_text fs) (b' ' ∷ rest) refl),
        read_fields-commas fs n rest p.1 (omega arith),
      )
      refl

pub read_symbols-commas :
    (ps : List (Text × Text)) (n : ℕ) (rest : Text)
    → length ps < n
    → read_symbols n (commas (map symbol_text ps) ++ b' ' ∷ rest) ≡ some (ps, b' ' ∷ rest)
unfolding read_symbols commas flat_map expect
read_symbols-commas ps zero rest l = absurd (omega arith)
read_symbols-commas [] (suc n) rest l = refl
read_symbols-commas (p ∷ ps) (suc n) rest l =
    let more : Text = commas (map symbol_text ps) ++ b' ' ∷ rest in
    rw
      (
        append_assoc (symbol_text p) (commas (map symbol_text ps)) (b' ' ∷ rest),
        append_assoc (name_text p.0) (b'=' ∷ name_text p.1) more,
        read_name-text p.0 (b'=' ∷ (name_text p.1 ++ more)) refl,
        read_name-text p.1 more (commas-IsEnd (map symbol_text ps) (b' ' ∷ rest) refl),
        read_symbols-commas ps n rest (omega arith),
      )
      refl

pub digits_on-plain :
    (n : ℕ) (w : Acc ◌<◌ n) (out : Text)
    → All (λ c. is_plain c ≡ true) out
    → All (λ c. is_plain c ≡ true) (digits_on n w out)
unfolding digits_on is_plain ends_name
digits_on-plain n (Acc.intro _ smaller) out h =
    elim (dec_lt 9 n)
      as (λ d.
        All (λ c. is_plain c ≡ true)
          (dite d
            (λ lt. digits_on (n / 10) (smaller (n / 10) (tenth_lt lt)) ((b'0' + n % 10) ∷ out))
            (λ _. (b'0' + n) ∷ out))) [
              | yes lt ↦
                  digits_on-plain (n / 10) (smaller (n / 10) (tenth_lt lt)) _ (ground arith, h)
              | no ge ↦ (ground arith, h)
            ]

pub integer-plain : (n : ℤ) → All (λ c. is_plain c ≡ true) (integer n)
unfolding integer decimal is_plain ends_name
integer-plain (pos n) = digits_on-plain n (lt_wf.apply n) [] tt
integer-plain (negsuc n) = (refl, digits_on-plain (suc n) (lt_wf.apply (suc n)) [] tt)

pub present_fields-IsPlain :
    (fields : List (Text × FieldValue))
    → ArePlainFloats fields
    → All (λ f. IsPlain f.1) (present_fields fields)
unfolding present_fields value_of is_plain ends_name
present_fields-IsPlain [] h = tt
present_fields-IsPlain ((key, null) ∷ fields) h = present_fields-IsPlain fields h.1
present_fields-IsPlain ((key, boolean true) ∷ fields) h =
    ((refl, (refl, (refl, (refl, tt)))), present_fields-IsPlain fields h.1)
present_fields-IsPlain ((key, boolean false) ∷ fields) h =
    ((refl, (refl, (refl, (refl, (refl, tt))))), present_fields-IsPlain fields h.1)
present_fields-IsPlain ((key, micros n) ∷ fields) h =
    (All-append _ (integer n) _ (integer-plain n) (refl, tt), present_fields-IsPlain fields h.1)
present_fields-IsPlain ((key, int n) ∷ fields) h =
    (All-append _ (integer n) _ (integer-plain n) (refl, tt), present_fields-IsPlain fields h.1)
present_fields-IsPlain ((key, float is_finite repr) ∷ fields) h =
    (h.0, present_fields-IsPlain fields h.1)
present_fields-IsPlain ((key, string s) ∷ fields) h = (tt, present_fields-IsPlain fields h.1)

-- A row as it is written.
abbrev pub written : Text → List (Text × Text) → Text × Value → List (Text × Value) → ℤ → Text
written table symbols field fields timestamp_ns =
    name_text table
    ++ (commas (map symbol_text symbols)
        ++ (b' '
            ∷ (field_text field
                ++ (commas (map field_text fields)
                    ++ (b' ' ∷ (integer timestamp_ns ++ b'\n' ∷ []))))))

pub line-written :
    (table : Text) (symbols : List (Text × Text)) (f : Text × Value) (fs : List (Text × Value))
    (timestamp_ns : ℤ)
    → line (name_text table) (map symbol_text symbols) (map field_text (f ∷ fs)) timestamp_ns
      ≡ written table symbols f fs timestamp_ns
line-written table symbols f fs timestamp_ns =
    rw
      (
        symbols_text_lem (map symbol_text symbols),
        join-cons (field_text f) (map field_text fs),
        append_assoc (field_text f) (commas (map field_text fs))
            (b' ' ∷ (integer timestamp_ns ++ b'\n' ∷ [])),
      )
      refl

pub row_text-ok :
    (table : Text) (symbols : List (Text × Option Text)) (fields : List (Text × FieldValue))
    (timestamp_ns : ℤ) (text : Text)
    → row_text table symbols fields timestamp_ns ≡ ok text
    → (is_empty (map field_text (present_fields fields)) ≡ false)
      × (text
          ≡ line
              (name_text table)
              (map symbol_text (present_symbols symbols))
              (map field_text (present_fields fields))
              timestamp_ns)
unfolding row_text
row_text-ok table symbols fields timestamp_ns text e = grind (
  arith,
  e,
  escape_identifier-cases table,
  Result-cases (symbol_parts symbols),
  symbol_parts-ok symbols,
  Result-cases (field_parts fields),
  field_parts-ok fields,
)
