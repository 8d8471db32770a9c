-- ===== src/Schema/Members.antt =====
-- Searches in lists and membership, for the columns of a table.
use mathlib.Core.Path.{subst}
use hass_questdb_writer.Prelude.{
  ◌≡◌, refl, sym, ap, ◌∙◌, inl, inr, Bool, true, false, List, [], ◌∷◌, map, any_of, keep, arith,
  All, Member, All-Member, Bool-cases,
}

pub any_of-All :
    {A : Type 0} (test : A → Bool) (xs : List A)
    → any_of test xs ≡ false
    → All (λ x. test x ≡ false) xs
unfolding any_of
any_of-All test [] h = tt
any_of-All test (x ∷ xs) h = (ground (arith, h), any_of-All test xs (ground (arith, h)))

pub All-any_of :
    {A : Type 0} (test : A → Bool) (xs : List A)
    → All (λ x. test x ≡ false) xs
    → any_of test xs ≡ false
unfolding any_of
All-any_of test [] h = refl
All-any_of test (x ∷ xs) h = rw h.0 (All-any_of test xs h.1)

pub any_of-Member :
    {A : Type 0} (test : A → Bool) (xs : List A) (x : A)
    → any_of test xs ≡ false
    → Member x xs
    → test x ≡ false
any_of-Member test xs x h m = All-Member (λ y. test y ≡ false) x xs (any_of-All test xs h) m

pub any_of_later :
    {A : Type 0} (test : A → Bool) (x : A) (xs : List A)
    → any_of test (x ∷ xs) ≡ true
    → test x ≡ false
    → any_of test xs ≡ true
unfolding any_of
any_of_later test x xs h e = ground (arith, h, e)

pub keep_hit :
    {A : Type 0} (test : A → Bool) (x : A) (xs : List A)
    → test x ≡ true
    → keep test (x ∷ xs) ≡ x ∷ keep test xs
unfolding keep
keep_hit test x xs h = rw h refl

pub keep_miss :
    {A : Type 0} (test : A → Bool) (x : A) (xs : List A)
    → test x ≡ false
    → keep test (x ∷ xs) ≡ keep test xs
unfolding keep
keep_miss test x xs h = rw h refl

pub keep-Member :
    {A : Type 0} (test : A → Bool) (xs : List A) (x : A)
    → Member x xs
    → test x ≡ true
    → Member x (keep test xs)
keep-Member test [] x m h = absurd m
keep-Member test (y ∷ ys) x (inl e) h =
    subst (Member x) (sym (keep_hit test y ys (ap test (sym e) ∙ h))) (inl e)
keep-Member test (y ∷ ys) x (inr m) h = elim (Bool-cases (test y)) [
  | inl f ↦ subst (Member x) (sym (keep_hit test y ys f)) (inr (keep-Member test ys x m h))
  | inr f ↦ subst (Member x) (sym (keep_miss test y ys f)) (keep-Member test ys x m h)
]

pub Member-keep :
    {A : Type 0} (test : A → Bool) (xs : List A) (x : A)
    → Member x (keep test xs)
    → Member x xs × (test x ≡ true)
unfolding keep
Member-keep test [] x m = absurd m
Member-keep test (y ∷ ys) x m = elim (Bool-cases (test y)) [
  | inl f ↦ elim (subst (Member x) (keep_hit test y ys f) m) [
    | inl e ↦ (inl e, ap test e ∙ f)
    | inr m' ↦ let w = Member-keep test ys x m' in (inr w.0, w.1)
  ]
  | inr f ↦
      let w = Member-keep test ys x (subst (Member x) (keep_miss test y ys f) m) in (inr w.0, w.1)
]

pub map-Member :
    {A B : Type 0} (f : A → B) (xs : List A) (b : B)
    → Member b (map f xs)
    → (x : A) × Member x xs × (b ≡ f x)
map-Member f [] b m = absurd m
map-Member f (y ∷ ys) b (inl e) = (y, inl refl, e)
map-Member f (y ∷ ys) b (inr m) = let (x, m', e) = map-Member f ys b m in (x, inr m', e)
