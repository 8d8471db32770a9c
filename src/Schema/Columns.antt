-- ===== src/Schema/Columns.antt =====
-- The dict of columns of `validate_table_columns` of custom_components/hass_questdb_writer/schema.py.
use mathlib.Core.Path.{subst}
use hass_questdb_writer.Prelude.{
  ◌≡◌, refl, sym, ap, ◌∙◌, inl, inr, Bool, true, false, not, none, some, List, [], ◌∷◌, map,
  if◌then◌else◌, any_of, keep, Text, text_eq, text_eq_iff, text_eq_refl, arith, Member, Bool-cases,
  Option-cases,
}
use hass_questdb_writer.Worker.Accounting.{if_both}
use hass_questdb_writer.Schema.{Column, column_of, actual, same_names}
use hass_questdb_writer.Prelude.Members.{any_of_witness, Member-map}
use hass_questdb_writer.Schema.Members.{any_of-Member, keep-Member, Member-keep, map-Member}

-- The dict of the rows, by its lookup and by the rows that it keeps.
pub column_of-none :
    (name : Text) (cs : List Column)
    → column_of name cs ≡ none
    → any_of (λ c. text_eq name c.name) cs ≡ false
unfolding column_of any_of
column_of-none name [] h = refl
column_of-none name (c ∷ cs) h = ground (arith, h, column_of-none name cs)

pub column_of_missing :
    (name : Text) (cs : List Column)
    → any_of (λ c. text_eq name c.name) cs ≡ false
    → column_of name cs ≡ none
unfolding column_of any_of
column_of_missing name [] h = refl
column_of_missing name (c ∷ cs) h = ground (arith, h, column_of_missing name cs)

pub actual_again :
    (c : Column) (cs : List Column)
    → any_of (λ d. text_eq c.name d.name) cs ≡ true
    → actual (c ∷ cs) ≡ actual cs
unfolding actual
actual_again c cs h = rw h refl

pub actual_last :
    (c : Column) (cs : List Column)
    → any_of (λ d. text_eq c.name d.name) cs ≡ false
    → actual (c ∷ cs) ≡ c ∷ actual cs
unfolding actual
actual_last c cs h = rw h refl

pub column_of_later :
    (name : Text) (d c : Column) (cs : List Column)
    → column_of name cs ≡ some c
    → column_of name (d ∷ cs) ≡ some c
unfolding column_of
column_of_later name d c cs h = rw (h, column_of) refl

pub column_of_here :
    (name : Text) (d : Column) (cs : List Column)
    → column_of name cs ≡ none
    → column_of name (d ∷ cs) ≡ (if text_eq name d.name then some d else none)
unfolding column_of
column_of_here name d cs h = rw (h, column_of) refl

pub column_of-actual :
    (name : Text) (cs : List Column) (c : Column)
    → column_of name cs ≡ some c
    → Member c (actual cs) × (name ≡ c.name)
unfolding column_of actual
column_of-actual name [] c h = absurd (cc (h))
column_of-actual name (d ∷ cs) c h = elim (Option-cases (column_of name cs)) [
  | inr (e, f) ↦
      let g : e ≡ c = cc (sym (column_of_later name d e cs f), h) in
      let (m, n) = column_of-actual name cs c (f ∙ ap some g) in
      (if_both (Member c) (any_of (λ x. text_eq d.name x.name) cs) _ _ m (inr m), n)
  | inl f ↦ elim (Bool-cases (text_eq name d.name)) [
    | inr g ↦ absurd (cc (column_of_here name d cs f, h, g))
    | inl g ↦
        let same : name ≡ d.name = (text_eq_iff name d.name).0 g in
        let here : d ≡ c = cc (column_of_here name d cs f, h, g) in
        let fresh : any_of (λ x. text_eq d.name x.name) cs ≡ false =
          subst (λ k. any_of (λ x. text_eq k x.name) cs ≡ false) same (column_of-none name cs f) in
        (
          subst (Member c) (sym (actual_last d cs fresh)) (inl (sym here)),
          same ∙ ap (λ x. x.name) here,
        )
  ]
]

pub actual-column_of :
    (cs : List Column) (c : Column) → Member c (actual cs) → column_of c.name cs ≡ some c
unfolding actual
actual-column_of [] c m = absurd m
actual-column_of (d ∷ cs) c m = elim (Bool-cases (any_of (λ x. text_eq d.name x.name) cs)) [
  | inl f ↦
      column_of_later c.name d c cs
        (actual-column_of cs c (subst (Member c) (actual_again d cs f) m))
  | inr f ↦ elim (subst (Member c) (actual_last d cs f) m) [
    | inr m' ↦ column_of_later c.name d c cs (actual-column_of cs c m')
    | inl e ↦
        column_of_here c.name d cs (
          column_of_missing c.name cs
            (subst (λ x. any_of (λ y. text_eq x.name y.name) cs ≡ false) (sym e) f))
        ∙ rw (e, text_eq_refl d.name) refl
  ]
]

pub same_names-first :
    (xs ys : List Text) (x : Text)
    → same_names xs ys ≡ true
    → Member x xs
    → any_of (text_eq x) ys ≡ true
unfolding same_names
same_names-first xs ys x h m =
    let w = any_of-Member (λ z. not (any_of (text_eq z) ys)) xs x (ground (arith, h)) m in
    ground (arith, w)

pub same_names-second :
    (xs ys : List Text) (y : Text)
    → same_names xs ys ≡ true
    → Member y ys
    → any_of (text_eq y) xs ≡ true
unfolding same_names
same_names-second xs ys y h m =
    let w = any_of-Member (λ z. not (any_of (text_eq z) xs)) ys y (ground (arith, h)) m in
    ground (arith, w)

-- A flag that is right for a set of names is right at each name.
module _ (flag : Column → Bool) (names : List Text) (cs : List Column) (name : Text) (c : Column)
    (h : same_names (map (λ d. d.name) (keep flag (actual cs))) names ≡ true)
    (f : column_of name cs ≡ some c) where
  flagged-is_named : flag c ≡ true → any_of (text_eq name) names ≡ true
  flagged-is_named g =
      let (m, n) = column_of-actual name cs c f in
      ap (λ k. any_of (text_eq k) names) n
      ∙ same_names-first (map (λ d. d.name) (keep flag (actual cs))) names c.name h
          (Member-map (λ d. d.name) (keep flag (actual cs)) c (keep-Member flag (actual cs) c m g))

  named-is_flagged : any_of (text_eq name) names ≡ true → flag c ≡ true
  named-is_flagged k =
      let all : List Text = map (λ d. d.name) (keep flag (actual cs)) in
      let (y, my, ey) = any_of_witness (text_eq name) names k in
      let (z, mz, ez) = any_of_witness (text_eq y) all (same_names-second all names y h my) in
      let (d, md, ed) = map-Member (λ d. d.name) (keep flag (actual cs)) z mz in
      let (ma, fd) = Member-keep flag (actual cs) d md in
      let same : name ≡ d.name = (text_eq_iff name y).0 ey ∙ (text_eq_iff y z).0 ez ∙ ed in
      let one : d ≡ c = cc (actual-column_of cs d ma, f, ap (λ x. column_of x cs) same) in
      ap flag (sym one) ∙ fd

  pub flag_of : flag c ≡ any_of (text_eq name) names
  flag_of = elim (Bool-cases (flag c)) [
    | inl g ↦ g ∙ sym (flagged-is_named g)
    | inr g ↦ elim (Bool-cases (any_of (text_eq name) names)) [
      | inl k ↦ absurd (cc (g, named-is_flagged k))
      | inr k ↦ g ∙ sym k
    ]
  ]
