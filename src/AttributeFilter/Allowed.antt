-- ===== src/AttributeFilter/Allowed.antt =====
-- What `__call__` of custom_components/hass_questdb_writer/attribute_filter.py lets pass, and what is
-- left of a list of which a test keeps some elements.
use hass_questdb_writer.Prelude.{
  ◌≡◌, refl, ap, ◌⊎◌, inl, inr, Bool, true, false, Option, none, some, List, [], ◌∷◌, keep, any_of,
  Member, is_empty, Text, arith, Bool-cases,
}
use hass_questdb_writer.Prelude.Members.{any_of_witness, Member-any_of}
use hass_questdb_writer.AttributeFilter.{AttributeFilter, passes}
use hass_questdb_writer.Worker.Accounting.{if_cases}

-- A pattern of the list matches the name.
abbrev pub Matches : (Text → Text → Bool) → List Text → Text → Type 0
Matches fnmatchcase patterns name = (p : Text) × Member p patterns × (fnmatchcase name p ≡ true)

-- No pattern denies the name, and one allows it if there are any.
abbrev pub IsAllowed : (Text → Text → Bool) → Option AttributeFilter → Text → Type 0
IsAllowed fnmatchcase none name = Unit {0}
IsAllowed fnmatchcase (some f) name =
    (¬ Matches fnmatchcase f.deny name) × ((f.allow ≡ []) ⊎ Matches fnmatchcase f.allow name)

-- The second list has the elements of the first that `P` holds of, in order, and no others.
pub data Filters {A : Type 0} (P : A → Type 0) : List A → List A → Type 0 where
  ends : Filters P [] []
  takes : {x : A} {xs ys : List A} → P x → Filters P xs ys → Filters P (x ∷ xs) (x ∷ ys)
  drops : {x : A} {xs ys : List A} → ¬ P x → Filters P xs ys → Filters P (x ∷ xs) ys

is_empty_nil : (l : List Text) → is_empty l ≡ true → l ≡ []
is_empty_nil [] h = refl
is_empty_nil (x ∷ l) h = absurd (cc (h))

any_of-full :
    (fnmatchcase : Text → Text → Bool) (patterns : List Text) (name : Text)
    → any_of (fnmatchcase name) patterns ≡ true
    → is_empty patterns ≡ false
unfolding any_of
any_of-full fnmatchcase [] name h = absurd (cc (h))
any_of-full fnmatchcase (p ∷ ps) name h = refl

pub passes-IsAllowed :
    (fnmatchcase : Text → Text → Bool) (f : AttributeFilter) (name : Text)
    → passes fnmatchcase f name ≡ true
    → IsAllowed fnmatchcase (some f) name
unfolding passes
passes-IsAllowed fnmatchcase f name h = (
  λ (p, m, e).
      let denied = Member-any_of (fnmatchcase name) f.deny p m e in
      absurd (ground (arith, h, denied, any_of-full fnmatchcase f.deny name denied)),
  elim (Bool-cases (is_empty f.allow)) [
    | inl e ↦ inl (is_empty_nil f.allow e)
    | inr e ↦ inr (any_of_witness (fnmatchcase name) f.allow (ground (arith, h, e)))
  ],
)

pub IsAllowed-passes :
    (fnmatchcase : Text → Text → Bool) (f : AttributeFilter) (name : Text)
    → IsAllowed fnmatchcase (some f) name
    → passes fnmatchcase f name ≡ true
unfolding passes
IsAllowed-passes fnmatchcase f name (undenied, allowed) =
    elim (Bool-cases (any_of (fnmatchcase name) f.deny)) [
      | inl e ↦ absurd (undenied (any_of_witness (fnmatchcase name) f.deny e))
      | inr e ↦ elim allowed [
        | inl none_ ↦ ground (arith, e, ap (λ (l : List Text). is_empty l) none_)
        | inr (p, m, h) ↦ ground (arith, e, Member-any_of (fnmatchcase name) f.allow p m h)
      ]
    ]

module _ {A : Type 0} (P : A → Type 0) (test : A → Bool) where
  pub keep-Filters :
      ((x : A) → test x ≡ true → P x)
      → ((x : A) → P x → test x ≡ true)
      → (xs : List A) → Filters P xs (keep test xs)
  unfolding keep
  keep-Filters sound complete [] = ends
  keep-Filters sound complete (x ∷ xs) =
      if_cases (Filters P (x ∷ xs)) (test x) _ _
        (λ e. takes (sound x e) (keep-Filters sound complete xs))
        (λ e. drops (λ p. absurd (cc (e, complete x p))) (keep-Filters sound complete xs))

  pub Filters-keep :
      ((x : A) → test x ≡ true → P x)
      → ((x : A) → P x → test x ≡ true)
      → {xs ys : List A} → Filters P xs ys
      → keep test xs ≡ ys
  unfolding keep
  Filters-keep sound complete ends = refl
  Filters-keep sound complete (takes {x = x} {xs = xs} p f) =
      rw (complete x p) (ap (λ l. x ∷ l) (Filters-keep sound complete f))
  Filters-keep sound complete (drops {x = x} {xs = xs} p f) = elim (Bool-cases (test x)) [
    | inl e ↦ absurd (p (sound x e))
    | inr e ↦ rw e (Filters-keep sound complete f)
  ]
