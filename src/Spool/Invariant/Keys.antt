-- ===== src/Spool/Invariant/Keys.antt =====
-- Keys that stand in one row of one of two tables: an event ID or a sequence number. `f` and `g`
-- read the key of a row of each table.
use mathlib.Core.List.{
  Mem, Nodup, perm_middle, Nodup-cons, map-append, mem-append, mem-cons, not-mem-nil, append_assoc,
  perm_append_singleton,
}
use mathlib.Core.List.Perm
use mathlib.Core.HLevel.{⊥_prop}
use mathlib.Core.Logic.Or
use hass_questdb_writer.Prelude.{
  ℕ, suc, ◌≤◌, All, ◌≡◌, sym, Bool, true, false, refl, Bool-cases, inl, inr, List, [], ◌∷◌, ◌++◌,
  map, any_of, arith,
}
use hass_questdb_writer.Spool.Invariant.Rows.{Removes, Removes-perm}

module _ {A K : Type 0} where
  -- A test that holds exactly for one key, and for no row: the key is no row's.
  pub not_mem_of_any_of :
      (f : A → K) (k : K) (test : A → Bool)
      → ((x : A) → f x ≡ k → test x ≡ true)
      → (xs : List A) → any_of test xs ≡ false
      → ¬ Mem k (map f xs)
  unfolding any_of
  not_mem_of_any_of f k test complete [] h = not-mem-nil
  not_mem_of_any_of f k test complete (x ∷ xs) h = λ m.
      Or.elim ⊥_prop (mem-cons.0 m) (λ e. ground (arith, complete x (sym e)))
        (not_mem_of_any_of f k test complete xs (ground arith))

  -- The other way round, for a test that holds only for rows with the key.
  pub any_of_of_not_mem :
      (f : A → K) (k : K) (test : A → Bool)
      → ((x : A) → test x ≡ true → k ≡ f x)
      → (xs : List A) → ¬ Mem k (map f xs)
      → any_of test xs ≡ false
  unfolding any_of
  any_of_of_not_mem f k test sound [] h = refl
  any_of_of_not_mem f k test sound (x ∷ xs) h = elim (Bool-cases (test x)) [
    | inl e ↦ absurd (h (mem-cons.1 (Or.inl (sound x e))))
    | inr e ↦ rw e (any_of_of_not_mem f k test sound xs (λ m. h (mem-cons.1 (Or.inr m))))
  ]

-- A number above all keys is no row's.
pub not_mem_of_All_le :
    {A : Type 0} (f : A → ℕ) (n : ℕ) (xs : List A)
    → All (λ x. f x ≤ n) xs
    → ¬ Mem (suc n) (map f xs)
not_mem_of_All_le f n [] h = not-mem-nil
not_mem_of_All_le f n (x ∷ xs) h = λ m.
    Or.elim ⊥_prop (mem-cons.0 m) (λ e. absurd (omega (arith, e, h.0)))
      (not_mem_of_All_le f n xs h.1)

module _ {K : Type 0} where
  pub not_mem_right : {k : K} (xs ys : List K) → ¬ Mem k (xs ++ ys) → ¬ Mem k ys
  not_mem_right xs ys h = λ m. h (mem-append.1 (Or.inr m))

  pub not_mem-append : {k : K} (xs ys : List K) → ¬ Mem k xs → ¬ Mem k ys → ¬ Mem k (xs ++ ys)
  not_mem-append xs ys hx hy = λ m. Or.elim ⊥_prop (mem-append.0 m) hx hy

module _ {A B K : Type 0} (f : A → K) (g : B → K) where
  pub Nodup-insert :
      (xs : List A) (ys : List B) (x : A)
      → ¬ Mem (f x) (map f xs ++ map g ys)
      → Nodup (map f xs ++ map g ys)
      → Nodup (map f (xs ++ x ∷ []) ++ map g ys)
  Nodup-insert xs ys x fresh h =
      rw (map-append, append_assoc)
        (Perm.nodup (Perm.symm (perm_middle (map f xs) (map g ys))) (Nodup-cons.1 (fresh, h)))

  pub Nodup-remove :
      {x : A} {xs rest : List A} (ys : List B)
      → Removes x xs rest
      → Nodup (map f xs ++ map g ys)
      → (¬ Mem (f x) (map f rest ++ map g ys)) × Nodup (map f rest ++ map g ys)
  Nodup-remove {x} ys r h =
      Nodup-cons.0 (Perm.nodup (Perm.append_right (map g ys) (Perm.map f (Removes-perm r))) h)

  pub Nodup-remove_right :
      (xs : List A) {y : B} {ys rest : List B}
      → Removes y ys rest
      → Nodup (map f xs ++ map g ys)
      → Nodup (map f xs ++ map g rest)
  Nodup-remove_right xs {y} {rest = rest} r h =
      (Nodup-cons.0 (
        Perm.nodup
          (Perm.trans (Perm.append_left (map f xs) (Perm.map g (Removes-perm r)))
            (perm_middle (map f xs) (map g rest)))
          h)).1

  pub Nodup-move :
      {x : A} {xs rest : List A} (ys : List B) (y : B)
      → f x ≡ g y
      → Removes x xs rest
      → Nodup (map f xs ++ map g ys)
      → Nodup (map f rest ++ map g (ys ++ y ∷ []))
  Nodup-move {x} {xs} {rest} ys y same r h =
      rw (map-append, ← append_assoc, ← same)
        (Perm.nodup (Perm.symm (perm_append_singleton (f x) (map f rest ++ map g ys)))
          (Nodup-cons.1 (Nodup-remove ys r h)))
