-- ===== src/Event/RoundTrip.antt =====
-- Payloads of custom_components/hass_questdb_writer/event.py, read back.
use mathlib.Core.Path.{subst}
use hass_questdb_writer.Prelude.{
  ◌≡◌, refl, sym, ap, ◌∙◌, Bool, true, false, not, ◌||◌, Option, none, some, List, [], ◌∷◌, map,
  any_of, keep, pos, Text, Bytes, text_eq, text_eq_iff, text_eq_refl, is_empty, ok, codes, utf8,
  utf8_decode, arith, All, Member, All-of_Member, inl, inr, Bool-cases, Option-cases, IsCodePoint,
}
use hass_questdb_writer.Prelude.Decoding.{utf8_decode-utf8}
use hass_questdb_writer.Event.{
  Scalar, Document, object, Codec, Envelope, event_payload_version, post_init, asdict, to_bytes,
  lookup, remove, has_key, field_names, has_fields, construct, restore, loads_bytes, from_bytes,
  optional_text, optional_field,
}

-- The document that `to_bytes` dumps.
abbrev pub document : Envelope → Document
document e = (codes "version", Scalar.number (pos event_payload_version)) ∷ asdict e

-- `json.loads(json.dumps(d)) == d`
abbrev pub ReadsBack : Codec → Document → Type 0
ReadsBack json d =
    (d' : Document) × (json.loads (json.dumps d) ≡ some (object d'))
    × ((key : Text) → lookup key d' ≡ lookup key d)

lookup-remove :
    (key k : Text) (d : Document) → text_eq key k ≡ false → lookup key (remove k d) ≡ lookup key d
unfolding lookup remove keep
lookup-remove key k [] h = refl
lookup-remove key k ((j, v) ∷ d) h =
    ground
      (arith, text_eq_iff key k, text_eq_iff j k, text_eq_iff key j, lookup-remove key k d h, h)

or_true : (b : Bool) → (b || true) ≡ true
or_true true = refl
or_true false = refl

has_key-cons :
    (key k : Text) (v : Scalar) (d : Document)
    → has_key ((k, v) ∷ d) key ≡ (text_eq key k || has_key d key)
unfolding lookup
has_key-cons key k v d = ground arith

has_key-any_of :
    (key : Text) (d : Document) → has_key d key ≡ any_of (text_eq key) (map (λ p. p.0) d)
unfolding any_of lookup
has_key-any_of key [] = refl
has_key-any_of key ((k, v) ∷ d) = rw (has_key-cons key k v d, has_key-any_of key d) refl

has_key-Member : (p : Text × Scalar) (d : Document) → Member p d → has_key d p.0 ≡ true
has_key-Member p [] m = absurd m
has_key-Member p ((k, v) ∷ d) (inl e) =
    rw (has_key-cons p.0 k v d, ap (λ x. x.0) e, text_eq_refl k) refl
has_key-Member p ((k, v) ∷ d) (inr m) =
    has_key-cons p.0 k v d ∙ rw (has_key-Member p d m) (or_true (text_eq p.0 k))

remove_hit :
    (k : Text) (q : Text × Scalar) (d : Document)
    → text_eq q.0 k ≡ true
    → remove k (q ∷ d) ≡ remove k d
unfolding remove keep
remove_hit k q d e = rw e refl

remove_miss :
    (k : Text) (q : Text × Scalar) (d : Document)
    → text_eq q.0 k ≡ false
    → remove k (q ∷ d) ≡ q ∷ remove k d
unfolding remove keep
remove_miss k q d e = rw e refl

-- What stands in a document after `remove` stood there before, under another key.
remove-Member :
    (k : Text) (d : Document) (p : Text × Scalar)
    → Member p (remove k d)
    → Member p d × (text_eq p.0 k ≡ false)
unfolding remove keep
remove-Member k [] p m = absurd m
remove-Member k (q ∷ d) p m = elim (Bool-cases (text_eq q.0 k)) [
  | inl e ↦ let w = remove-Member k d p (subst (Member p) (remove_hit k q d e) m) in (inr w.0, w.1)
  | inr e ↦ elim (subst (Member p) (remove_miss k q d e) m) [
    | inl f ↦ (inl f, rw (ap (λ x. x.0) f) e)
    | inr m' ↦ let w = remove-Member k d p m' in (inr w.0, w.1)
  ]
]

any_of-false :
    {A : Type 0} (test : A → Bool) (xs : List A)
    → All (λ x. test x ≡ false) xs
    → any_of test xs ≡ false
unfolding any_of
any_of-false test [] h = refl
any_of-false test (x ∷ xs) h = rw h.0 (any_of-false test xs h.1)

-- The keys of a dumped document are the version and the names of the fields.
known_key :
    (e : Envelope) (key : Text)
    → has_key (document e) key ≡ true
    → text_eq key (codes "version") ≡ false
    → any_of (text_eq key) field_names ≡ true
unfolding lookup any_of asdict
known_key e key h h' = grind (arith, h, h', has_key-any_of key (document e))

has_key-lookup :
    (key : Text) (d d' : Document) → lookup key d ≡ lookup key d' → has_key d key ≡ has_key d' key
has_key-lookup key d d' e = ap (λ o. elim o as (λ _. Bool) [ none ↦ false | some _ ↦ true ]) e

optional_field-text : (o : Option Text) → optional_field (some (optional_text o)) ≡ ok o
optional_field-text none = refl
optional_field-text (some s) = refl

-- A loaded document with the values that were dumped, `lookup` by `lookup`.
module _ (e : Envelope) (d : Document)
    (same : (key : Text) → lookup key d ≡ lookup key (document e)) where
  abbrev rest : Document
  rest = remove (codes "version") d

  field :
      (key : Text) (v : Scalar)
      → text_eq key (codes "version") ≡ false
      → lookup key (document e) ≡ some v
      → lookup key rest ≡ some v
  field key v h h' = lookup-remove key (codes "version") d h ∙ same key ∙ h'

  missing :
      (key : Text) (v : Scalar)
      → text_eq key (codes "version") ≡ false
      → lookup key (document e) ≡ some v
      → not (has_key rest key) ≡ false
  missing key v h h' =
      ap (λ o. not (elim o as (λ _. Bool) [ none ↦ false | some _ ↦ true ])) (field key v h h')

  known : (p : Text × Scalar) → Member p rest → not (any_of (text_eq p.0) field_names) ≡ false
  known p m =
      let w = remove-Member (codes "version") d p m in
      rw
        (known_key e p.0
          (sym (has_key-lookup p.0 d (document e) (same p.0)) ∙ has_key-Member p d w.0) w.1)
        refl

  -- It has exactly the fields.
  restored-has_fields : has_fields rest ≡ true
  unfolding has_fields lookup asdict text_eq
  restored-has_fields =
      rw
        (
          any_of-false (λ key. not (has_key rest key)) field_names
              (
                missing (codes "event_id") _ refl refl,
                (
                  missing (codes "entity_id") _ refl refl,
                  (
                    missing (codes "state") _ refl refl,
                    (
                      missing (codes "attributes_json") _ refl refl,
                      (
                        missing (codes "ingested_at_ns") _ refl refl,
                        (
                          missing (codes "last_changed_ns") _ refl refl,
                          (
                            missing (codes "last_updated_ns") _ refl refl,
                            (missing (codes "context_id") _ refl refl, tt),
                          ),
                        ),
                      ),
                    ),
                  ),
                ),
              ),
          any_of-false (λ p. not (any_of (text_eq p.0) field_names)) rest
              (All-of_Member _ rest known),
        )
        refl

  -- Its fields are the fields of the envelope.
  restored-construct : (json : Codec) → construct json rest ≡ post_init json e
  unfolding construct lookup asdict text_eq
  restored-construct json =
      rw
        (
          field (codes "event_id") _ refl refl,
          field (codes "entity_id") _ refl refl,
          field (codes "state") _ refl refl,
          field (codes "attributes_json") _ refl refl,
          field (codes "ingested_at_ns") _ refl refl,
          field (codes "last_changed_ns") _ refl refl,
          field (codes "last_updated_ns") _ refl refl,
          field (codes "context_id") _ refl refl,
          optional_field-text e.context_id,
        )
        refl

restore-document :
    (json : Codec) (e : Envelope) (d : Document)
    → ((key : Text) → lookup key d ≡ lookup key (document e))
    → restore json (some (object d)) ≡ post_init json e
unfolding lookup asdict text_eq restore
restore-document json e d same =
    rw (same (codes "version"), restored-has_fields e d same) (restored-construct e d same json)

loads_bytes-utf8 :
    (json : Codec) (text : Text) (b : Bytes)
    → All IsCodePoint text
    → utf8 text ≡ some b
    → loads_bytes json b ≡ json.loads text
unfolding loads_bytes
loads_bytes-utf8 json text b h e = rw (utf8_decode-utf8 text b h e, loads_bytes) refl

-- A payload that reads back to a document is not empty.
not_empty :
    (json : Codec) (text : Text) (b : Bytes) (d : Document)
    → All IsCodePoint text
    → utf8 text ≡ some b
    → json.loads [] ≡ none
    → json.loads text ≡ some (object d)
    → is_empty b ≡ false
unfolding utf8_decode
not_empty json text (c ∷ b) d h e l r = refl
not_empty json text [] d h e l r =
    let w : some [] ≡ some text = utf8_decode-utf8 text [] h e in
    let v : text ≡ [] = cc (w) in absurd (cc (l, r, ap json.loads v))

-- A valid envelope whose document JSON reads back is restored from its payload as it was, field by
-- field, where the JSON text is one of code points and an empty text is no JSON.
pub from_bytes-to_bytes :
    (json : Codec) (e : Envelope) (b : Bytes)
    → post_init json e ≡ ok e
    → ReadsBack json (document e)
    → All IsCodePoint (json.dumps (document e))
    → json.loads [] ≡ none
    → to_bytes json e ≡ ok b
    → from_bytes json b ≡ ok e
unfolding from_bytes to_bytes
from_bytes-to_bytes json e b valid (d, l, same) h n t =
    elim (Option-cases (utf8 (json.dumps (document e)))) [
      | inl f ↦ absurd (cc (t, f))
      | inr (b', f) ↦
          let w : b ≡ b' = cc (t, f) in
          rw
            (
              w,
              not_empty json (json.dumps (document e)) b' d h f n l,
              loads_bytes-utf8 json (json.dumps (document e)) b' h f,
              l,
            )
            (restore-document json e d same ∙ valid)
    ]
