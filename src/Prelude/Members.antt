-- ===== src/Prelude/Members.antt =====
-- Members that a Boolean search finds, and members of a mapped list.
use mathlib.Core.Path.{◌≡◌, refl, sym, ap, ◌∙◌}
use mathlib.Core.Logic.{inl, inr}
use mathlib.Core.Bool.{Bool, true}
use mathlib.Core.List.{List, [], ◌∷◌, map}
use native.Mathlib.Omega.{arith}
use hass_questdb_writer.Prelude.Tests.{Bool-cases}
use hass_questdb_writer.Prelude.Lists.{Member, any_of}

pub any_of_witness :
    {A : Type 0} (test : A → Bool) (xs : List A)
    → any_of test xs ≡ true
    → (x : A) × Member x xs × (test x ≡ true)
unfolding any_of
any_of_witness test [] h = absurd (cc (h))
any_of_witness test (x ∷ xs) h = elim (Bool-cases (test x)) [
  | inl e ↦ (x, inl refl, e)
  | inr e ↦ let (y, m, f) = any_of_witness test xs (ground (arith, h, e)) in (y, inr m, f)
]

pub Member-any_of :
    {A : Type 0} (test : A → Bool) (xs : List A) (x : A)
    → Member x xs
    → test x ≡ true
    → any_of test xs ≡ true
unfolding any_of
Member-any_of test [] x m h = absurd m
Member-any_of test (y ∷ ys) x (inl e) h = ground (arith, ap test (sym e) ∙ h)
Member-any_of test (y ∷ ys) x (inr m) h = ground (arith, Member-any_of test ys x m h)

pub Member-map :
    {A B : Type 0} (f : A → B) (xs : List A) (x : A) → Member x xs → Member (f x) (map f xs)
Member-map f [] x m = absurd m
Member-map f (y ∷ ys) x (inl e) = inl (ap f e)
Member-map f (y ∷ ys) x (inr m) = inr (Member-map f ys x m)
