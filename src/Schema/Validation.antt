-- ===== src/Schema/Validation.antt =====
-- The tables that `validate_table_columns` of custom_components/hass_questdb_writer/schema.py lets
-- pass.
use mathlib.Core.Path.{subst}
use hass_questdb_writer.Prelude.{
  ◌≡◌, refl, sym, ap, ◌∙◌, inl, inr, Bool, true, false, not, ◌||◌, Option, none, some, List, [],
  ◌∷◌, any_of, Text, text_eq, text_eq_iff, ok, arith, Member, Bool-cases, Option-cases,
}
use hass_questdb_writer.Schema.{
  Column, expected_columns, designated_column, upsert_key_columns, column_of, read_rows, is_column,
  is_expected, has_missing, has_extra, has_type, has_wrong_type, actual, has_wrong_designated,
  has_wrong_upsert_keys, has_problem, validate_columns, validate_table_columns,
}
use hass_questdb_writer.Schema.Owned.{checked, owned_in, owned}
use hass_questdb_writer.Schema.Members.{any_of-All, All-any_of, any_of-Member, any_of_later}
use hass_questdb_writer.Schema.Columns.{flag_of, actual_again, actual_last, column_of-actual}

no_or :
    (a b c d e : Bool)
    → (a || b || c || d || e) ≡ false
    → (a ≡ false) × (b ≡ false) × (c ≡ false) × (d ≡ false) × (e ≡ false)
no_or a b c d e h = ground (arith, h)

is_column-none :
    (name : Text) (cs : List Column) → column_of name cs ≡ none → is_column cs name ≡ false
is_column-none name cs f = ap (λ o. elim o as (λ _. Bool) [ none ↦ false | some _ ↦ true ]) f

of_not : (b : Bool) → not b ≡ false → b ≡ true
of_not b g = ground (arith, g)

has_type-some :
    (t : Text) (o : Option Column) (c : Column)
    → not (has_type t o) ≡ false
    → o ≡ some c
    → c.type_name ≡ t
has_type-some t o c h e =
    (text_eq_iff c.type_name t).0
      (of_not (text_eq c.type_name t) (ap (λ x. not (has_type t x)) (sym e) ∙ h))

none-is_owned :
    (cs : List Column) (name : Text) (es : List (Text × Text))
    → any_of (λ e. not (is_column cs e.0)) es ≡ false
    → column_of name cs ≡ none
    → owned_in es name ≡ none
unfolding owned_in
none-is_owned cs name [] m f = refl
none-is_owned cs name ((n, t) ∷ es) m f =
    let (here, later) = any_of-All (λ e. not (is_column cs e.0)) ((n, t) ∷ es) m in
    elim (Bool-cases (text_eq name n)) [
      | inl g ↦
          let absent : is_column cs n ≡ false =
            is_column-none n cs (ap (λ k. column_of k cs) (sym ((text_eq_iff name n).0 g)) ∙ f) in
          absurd (cc (here, absent))
      | inr g ↦
          rw g (none-is_owned cs name es (All-any_of (λ e. not (is_column cs e.0)) es later) f)
    ]

-- A column under an owned name, with its type and flags.
module _ (cs : List Column) (name : Text) (c : Column) (f : column_of name cs ≡ some c)
    (d : has_wrong_designated cs ≡ false) (u : has_wrong_upsert_keys cs ≡ false) where
  designated_flag : c.is_designated ≡ any_of (text_eq name) (designated_column ∷ [])
  unfolding has_wrong_designated
  designated_flag =
      flag_of (λ x. x.is_designated) (designated_column ∷ []) cs name c (ground (arith, d)) f

  upsert_flag : c.is_upsert_key ≡ any_of (text_eq name) upsert_key_columns
  unfolding has_wrong_upsert_keys
  upsert_flag = flag_of (λ x. x.is_upsert_key) upsert_key_columns cs name c (ground (arith, u)) f

  some-is_owned :
      (es : List (Text × Text))
      → any_of (λ e. text_eq name e.0) es ≡ true
      → any_of (λ e. not (has_type e.1 (column_of e.0 cs))) es ≡ false
      → checked (some c) ≡ owned_in es name
  unfolding owned_in
  some-is_owned [] m t = absurd (cc (m))
  some-is_owned ((n, ty) ∷ es) m t =
      let (here, later) =
        any_of-All (λ e. not (has_type e.1 (column_of e.0 cs))) ((n, ty) ∷ es) t in
      elim (Bool-cases (text_eq name n)) [
        | inl g ↦
            let same : c.type_name ≡ ty =
              has_type-some ty (column_of n cs) c here
                (ap (λ k. column_of k cs) (sym ((text_eq_iff name n).0 g)) ∙ f) in
            rw (g, owned_in) (cc (same, designated_flag, upsert_flag))
        | inr g ↦
            rw (g, owned_in)
              (some-is_owned es (any_of_later (λ e. text_eq name e.0) (n, ty) es m g)
                (All-any_of (λ e. not (has_type e.1 (column_of e.0 cs))) es later))
      ]

missing_lem :
    (cs : List Column)
    → has_missing cs ≡ false
    → any_of (λ e. not (is_column cs e.0)) expected_columns ≡ false
unfolding has_missing
missing_lem cs h = h

wrong_type_lem :
    (cs : List Column)
    → has_wrong_type cs ≡ false
    → any_of (λ e. not (has_type e.1 (column_of e.0 cs))) expected_columns ≡ false
unfolding has_wrong_type
wrong_type_lem cs h = h

actual-Member : (cs : List Column) (c : Column) → Member c (actual cs) → Member c cs
unfolding actual
actual-Member [] c m = absurd m
actual-Member (d ∷ cs) c m = elim (Bool-cases (any_of (λ x. text_eq d.name x.name) cs)) [
  | inl f ↦ inr (actual-Member cs c (subst (Member c) (actual_again d cs f) m))
  | inr f ↦ elim (subst (Member c) (actual_last d cs f) m) [
    | inl e ↦ inl e
    | inr m' ↦ inr (actual-Member cs c m')
  ]
]

is_expected_lem :
    (cs : List Column) (name : Text) (c : Column)
    → has_extra cs ≡ false
    → column_of name cs ≡ some c
    → any_of (λ e. text_eq name e.0) expected_columns ≡ true
unfolding has_extra
is_expected_lem cs name c x f =
    let (m, n) = column_of-actual name cs c f in
    let w : not (is_expected c.name) ≡ false =
      any_of-Member (λ d. not (is_expected d.name)) cs c x (actual-Member cs c m) in
    ap is_expected n ∙ of_not (is_expected c.name) w

passes : (cs : List Column) → validate_columns (some cs) ≡ ok tt → has_problem cs ≡ false
passes cs h = elim (Bool-cases (has_problem cs)) [ inl f ↦ absurd (cc (h, f)) | inr f ↦ f ]

no_problem-is_owned :
    (cs : List Column) (name : Text)
    → has_problem cs ≡ false
    → checked (column_of name cs) ≡ owned name
unfolding has_problem
no_problem-is_owned cs name h =
    let (m, x, t, d, u) =
      no_or (has_missing cs) (has_extra cs) (has_wrong_type cs) (has_wrong_designated cs)
        (has_wrong_upsert_keys cs) h in
    elim (Option-cases (column_of name cs)) [
      | inl f ↦ ap checked f ∙ sym (none-is_owned cs name expected_columns (missing_lem cs m) f)
      | inr (c, f) ↦
          ap checked f
          ∙ some-is_owned cs name c f d u expected_columns (is_expected_lem cs name c x f)
              (wrong_type_lem cs t)
    ]

-- A table passes the validation only where all rows are well formed and, name by name, the last row
-- with the name has the type and the flags that the integration owns, and there is none where it
-- owns nothing.
pub validate_table_columns_lem :
    (rows : List (Option Column))
    → validate_table_columns (some rows) ≡ ok tt
    → (cs : List Column) × (read_rows rows ≡ some cs)
      × ((name : Text) → checked (column_of name cs) ≡ owned name)
unfolding validate_table_columns
validate_table_columns_lem rows h = elim (Option-cases (read_rows rows)) [
  | inl f ↦ absurd (cc (h, f))
  | inr (cs, f) ↦
      (cs, f, λ name. no_problem-is_owned cs name (passes cs (sym (ap validate_columns f) ∙ h)))
]
