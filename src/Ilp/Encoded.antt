-- ===== src/Ilp/Encoded.antt =====
-- The bytes of a row of custom_components/hass_questdb_writer/ilp.py, and what `send_batch` of
-- custom_components/hass_questdb_writer/transport.py asks of a payload.
use hass_questdb_writer.Prelude.{
  ◌≡◌, refl, true, Option, some, List, [], ◌∷◌, ◌++◌, ℤ, Text, Bytes, codes, join, integer, ok,
  Result-cases, Option-cases, utf8_char, utf8, arith, inl, inr,
}
use hass_questdb_writer.Ilp.{FieldValue, row_text, encode_row, line, symbols_text}
use hass_questdb_writer.Ilp.Reader.{ArePlainFloats, read_row, present_symbols, present_fields}
use hass_questdb_writer.Ilp.Pieces.{row_text-ok}
use hass_questdb_writer.Ilp.Rows.{read_row-row_text}
use hass_questdb_writer.Transport.{ends_with_newline}

pub ends_with_newline-append :
    (s t : Bytes) → ends_with_newline t ≡ true → ends_with_newline (s ++ t) ≡ true
unfolding ends_with_newline
ends_with_newline-append [] t h = h
ends_with_newline-append (c ∷ []) [] h = absurd (cc (h))
ends_with_newline-append (c ∷ []) (d ∷ t) h = h
ends_with_newline-append (c ∷ d ∷ s) t h = ends_with_newline-append (d ∷ s) t h

line-newline :
    (measurement : Text) (symbols fields : List Text) (timestamp_ns : ℤ)
    → ends_with_newline (line measurement symbols fields timestamp_ns) ≡ true
unfolding ends_with_newline
line-newline measurement symbols fields timestamp_ns =
    let last : Text = integer timestamp_ns ++ codes "\n" in
    let after_symbols : Text = codes " " ++ (join (codes ",") fields ++ (codes " " ++ last)) in
    ends_with_newline-append measurement (symbols_text symbols ++ after_symbols) (
      ends_with_newline-append (symbols_text symbols) after_symbols (
        ends_with_newline-append (codes " ") (join (codes ",") fields ++ (codes " " ++ last)) (
          ends_with_newline-append (join (codes ",") fields) (codes " " ++ last) (
            ends_with_newline-append (codes " ") last
              (ends_with_newline-append (integer timestamp_ns) (codes "\n") refl)))))

utf8-newline :
    (s : Text) (b : Bytes)
    → ends_with_newline s ≡ true
    → utf8 s ≡ some b
    → ends_with_newline b ≡ true
unfolding utf8 ends_with_newline utf8_char
utf8-newline [] b h e = absurd (cc (h))
utf8-newline (c ∷ []) b h e = ground (arith, e, h)
utf8-newline (c ∷ d ∷ s) b h e = elim (Option-cases (utf8_char c)) [
  | inl f ↦ absurd (cc (e, f))
  | inr (x, f) ↦ elim (Option-cases (utf8 (d ∷ s))) [
    | inl g ↦ absurd (cc (e, f, g))
    | inr (y, g) ↦
        let w : b ≡ x ++ y = cc (e, f, g) in
        rw w (ends_with_newline-append x y (utf8-newline (d ∷ s) y h g))
  ]
]

encode_row-ok :
    (table : Text) (symbols : List (Text × Option Text)) (fields : List (Text × FieldValue))
    (timestamp_ns : ℤ) (bytes : Bytes)
    → encode_row table symbols fields timestamp_ns ≡ ok bytes
    → (text : Text) × (row_text table symbols fields timestamp_ns ≡ ok text)
      × (utf8 text ≡ some bytes)
unfolding encode_row
encode_row-ok table symbols fields timestamp_ns bytes e =
    elim (Result-cases (row_text table symbols fields timestamp_ns)) [
      | inr (x, f) ↦ absurd (cc (e, f))
      | inl (text, f) ↦ elim (Option-cases (utf8 text)) [
        | inl g ↦ absurd (cc (e, f, g))
        | inr (b, g) ↦ (text, f, cc (e, f, g))
      ]
    ]

-- The bytes that `encode_row` returns are the UTF-8 of one text, which reads back as the table, the
-- symbols and the fields that are not None, each in its order and with its text, and the timestamp,
-- where the `repr` of a float holds no separator, backslash or quote.
pub encode_row-read_row :
    (table : Text) (symbols : List (Text × Option Text)) (fields : List (Text × FieldValue))
    (timestamp_ns : ℤ) (bytes : Bytes)
    → encode_row table symbols fields timestamp_ns ≡ ok bytes
    → ArePlainFloats fields
    → (text : Text) × (utf8 text ≡ some bytes)
      × (read_row text
          ≡ some (record {
            table = table;
            symbols = present_symbols symbols;
            fields = present_fields fields;
            timestamp = integer timestamp_ns;
          }))
encode_row-read_row table symbols fields timestamp_ns bytes e p =
    let (text, f, g) = encode_row-ok table symbols fields timestamp_ns bytes e in
    (text, g, read_row-row_text table symbols fields timestamp_ns text f p)

pub encode_row-newline :
    (table : Text) (symbols : List (Text × Option Text)) (fields : List (Text × FieldValue))
    (timestamp_ns : ℤ) (bytes : Bytes)
    → encode_row table symbols fields timestamp_ns ≡ ok bytes
    → ends_with_newline bytes ≡ true
encode_row-newline table symbols fields timestamp_ns bytes e =
    let (text, f, g) = encode_row-ok table symbols fields timestamp_ns bytes e in
    let (_, w) = row_text-ok table symbols fields timestamp_ns text f in
    utf8-newline text bytes (rw w (line-newline _ _ _ _)) g
