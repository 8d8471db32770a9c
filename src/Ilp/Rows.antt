-- ===== src/Ilp/Rows.antt =====
-- Rows of custom_components/hass_questdb_writer/ilp.py, read back.
use mathlib.Core.List.{flat_map}
use hass_questdb_writer.Prelude.{
  ℕ, suc, ◌+◌, ◌<◌, ◌≡◌, refl, false, Option, some, List, [], ◌∷◌, ◌++◌, map, length, ℤ, Text,
  arith, All, ok, is_empty, integer, length-append,
}
use hass_questdb_writer.Ilp.{FieldValue, row_text, line}
use hass_questdb_writer.Ilp.Reader.{
  Value, expect, read_row, present_symbols, present_fields, ArePlainFloats,
}
use hass_questdb_writer.Ilp.Written.{name_text, symbol_text, field_text, commas}
use hass_questdb_writer.Ilp.Pieces.{
  commas-IsEnd, read_name-text, read_name_plain, IsPlain, read_field-text, read_fields-commas,
  read_symbols-commas, integer-plain, present_fields-IsPlain, written, line-written, row_text-ok,
}

length-commas :
    {A : Type 0} (show : A → Text) (xs : List A) (c : ℕ) (rest : Text)
    → length xs < length (commas (map show xs) ++ c ∷ rest)
unfolding commas flat_map
length-commas show [] c rest = omega arith
length-commas show (x ∷ xs) c rest = omega (
  arith,
  length-commas show xs c rest,
  length-append (commas (map show xs)) (c ∷ rest),
  length-append (show x) (commas (map show xs)),
  length-append (show x ++ commas (map show xs)) (c ∷ rest),
)

enough_rounds :
    {A B : Type 0} (show : A → Text) (xs : List A) (show' : B → Text) (ys : List B)
    (s t rest : Text)
    → let n : ℕ =
        length
          (s ++ (commas (map show xs) ++ b' ' ∷ (t ++ (commas (map show' ys) ++ b' ' ∷ rest)))) in
      (length xs < n) × (length ys < n)
enough_rounds show xs show' ys s t rest =
    let inner : Text = commas (map show' ys) ++ b' ' ∷ rest in
    let outer : Text = commas (map show xs) ++ b' ' ∷ (t ++ inner) in
    let l₁ : length (s ++ outer) ≡ length s + length outer = length-append s outer in
    let l₂ : length outer ≡ length (commas (map show xs)) + suc (length (t ++ inner)) =
      length-append (commas (map show xs)) (b' ' ∷ (t ++ inner)) in
    let l₃ : length (t ++ inner) ≡ length t + length inner = length-append t inner in
    let l₄ : length xs < length outer = length-commas show xs b' ' (t ++ inner) in
    let l₅ : length ys < length inner = length-commas show' ys b' ' rest in
    (omega arith, omega arith)

read_row-written :
    (table : Text) (symbols : List (Text × Text)) (f : Text × Value) (fs : List (Text × Value))
    (timestamp_ns : ℤ)
    → All (λ g. IsPlain g.1) (f ∷ fs)
    → read_row (written table symbols f fs timestamp_ns)
      ≡ some (record {
        table = table;
        symbols = symbols;
        fields = f ∷ fs;
        timestamp = integer timestamp_ns;
      })
unfolding read_row expect
read_row-written table symbols f fs timestamp_ns p =
    let after_fields : Text = integer timestamp_ns ++ b'\n' ∷ [] in
    let after_field : Text = commas (map field_text fs) ++ b' ' ∷ after_fields in
    let after_symbols : Text = field_text f ++ after_field in
    let after_table : Text = commas (map symbol_text symbols) ++ b' ' ∷ after_symbols in
    let n : ℕ = length (name_text table ++ after_table) in
    let enough : (length symbols < n) × (length fs < n) =
      enough_rounds symbol_text symbols field_text fs (name_text table) (field_text f)
        after_fields in
    rw
      (
        read_name-text table after_table (commas-IsEnd (map symbol_text symbols) _ refl),
        read_symbols-commas symbols n after_symbols enough.0,
        read_field-text f after_field p.0 (commas-IsEnd (map field_text fs) _ refl),
        read_fields-commas fs n after_fields p.1 enough.1,
        read_name_plain (integer timestamp_ns) (b'\n' ∷ []) (integer-plain timestamp_ns) refl,
      )
      refl

read_line :
    (table : Text) (symbols : List (Text × Text)) (fs : List (Text × Value)) (timestamp_ns : ℤ)
    → is_empty (map field_text fs) ≡ false
    → All (λ g. IsPlain g.1) fs
    → read_row (line (name_text table) (map symbol_text symbols) (map field_text fs) timestamp_ns)
      ≡ some (record {
        table = table;
        symbols = symbols;
        fields = fs;
        timestamp = integer timestamp_ns;
      })
read_line table symbols [] timestamp_ns e p = absurd (cc (e))
read_line table symbols (f ∷ fs) timestamp_ns e p =
    rw (line-written table symbols f fs timestamp_ns)
      (read_row-written table symbols f fs timestamp_ns p)

pub read_row-row_text :
    (table : Text) (symbols : List (Text × Option Text)) (fields : List (Text × FieldValue))
    (timestamp_ns : ℤ) (text : Text)
    → row_text table symbols fields timestamp_ns ≡ ok text
    → ArePlainFloats fields
    → read_row text
      ≡ some (record {
        table = table;
        symbols = present_symbols symbols;
        fields = present_fields fields;
        timestamp = integer timestamp_ns;
      })
read_row-row_text table symbols fields timestamp_ns text e p =
    let w = row_text-ok table symbols fields timestamp_ns text e in
    rw w.1 (
      read_line table (present_symbols symbols) (present_fields fields) timestamp_ns w.0
        (present_fields-IsPlain fields p))
