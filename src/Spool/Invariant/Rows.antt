-- ===== src/Spool/Invariant/Rows.antt =====
-- Lemmas on the rows of a table: what an append and a removal do to the parts of the invariant.
use mathlib.Core.List.{Perm}
use mathlib.Core.List.Perm
use hass_questdb_writer.Prelude.{
  ℕ, suc, ◌+◌, ◌≤◌, ◌<◌, ◌≡◌, refl, ◌⊎◌, inl, inr, Bool, true, some, List, [], ◌∷◌, ◌++◌, length,
  arith, All,
}
use hass_questdb_writer.Spool.Types.{Row, DeadRow}
use hass_questdb_writer.Spool.Table.{remove_by}
use hass_questdb_writer.Spool.Invariant.{payload_bytes, dead_payload_bytes, Ascending}

-- `ys` is `xs` without one occurrence of `x`.
pub data Removes {A : Type 0} (x : A) : List A → List A → Type 0 where
  here : (xs : List A) → Removes x (x ∷ xs) xs
  there : (y : A) {xs ys : List A} → Removes x xs ys → Removes x (y ∷ xs) (y ∷ ys)

module _ {A : Type 0} where
  pub Removes-perm : {x : A} {xs ys : List A} → Removes x xs ys → Perm xs (x ∷ ys)
  Removes-perm {x} (here xs) = Perm.refl (x ∷ xs)
  Removes-perm {x} (there y {ys = ys} r) =
      Perm.trans (Perm.cons y (Removes-perm r)) (Perm.swap x y ys)

  remove_by-inversion :
      (test : A → Bool) (y : A) (ys : List A) (x : A) (rest : List A)
      → remove_by test (y ∷ ys) ≡ some (x, rest)
      → ((test x ≡ true) × (x ≡ y) × (rest ≡ ys))
        ⊎ ((tail : List A) × (remove_by test ys ≡ some (x, tail)) × (rest ≡ y ∷ tail))
  unfolding remove_by
  remove_by-inversion test y ys x rest h = ground arith

  -- The row that a DELETE takes passes its test, and the table keeps every other row in order.
  pub remove_by-Removes :
      (test : A → Bool) (xs : List A) (x : A) (rest : List A)
      → remove_by test xs ≡ some (x, rest)
      → (test x ≡ true) × Removes x xs rest
  unfolding remove_by
  remove_by-Removes test [] x rest h = absurd (ground arith)
  remove_by-Removes test (y ∷ ys) x rest h = elim (remove_by-inversion test y ys x rest h) [
    | inl (e, p, q) ↦ (e, rw (p, q) (here ys))
    | inr (tail, e, q) ↦ let ih = remove_by-Removes test ys x tail e in (ih.0, rw q (there y ih.1))
  ]

pub Removes-payload_bytes :
    {x : Row} {xs ys : List Row}
    → Removes x xs ys
    → (payload_bytes xs ≡ length x.payload + payload_bytes ys) × (length xs ≡ suc (length ys))
unfolding payload_bytes
Removes-payload_bytes (here xs) = (refl, refl)
Removes-payload_bytes (there y r) = omega (arith, Removes-payload_bytes r)

pub Removes-dead_payload_bytes :
    {x : DeadRow} {xs ys : List DeadRow}
    → Removes x xs ys
    → (dead_payload_bytes xs ≡ length x.payload + dead_payload_bytes ys)
      × (length xs ≡ suc (length ys))
unfolding dead_payload_bytes
Removes-dead_payload_bytes (here xs) = (refl, refl)
Removes-dead_payload_bytes (there y r) = omega (arith, Removes-dead_payload_bytes r)

pub Removes-All {κ} :
    {A : Type 0} (P : A → Type κ) {x : A} {xs ys : List A} → Removes x xs ys → All P xs → All P ys
Removes-All P (here xs) h = h.1
Removes-All P (there y r) h = (h.0, Removes-All P r h.1)

pub Removes-at {κ} :
    {A : Type 0} (P : A → Type κ) {x : A} {xs ys : List A} → Removes x xs ys → All P xs → P x
Removes-at P (here xs) h = h.0
Removes-at P (there y r) h = Removes-at P r h.1

pub Ascending-weaken :
    (lo lo' : ℕ) (rows : List Row) (hi : ℕ)
    → lo' ≤ lo
    → Ascending lo rows hi
    → Ascending lo' rows hi
Ascending-weaken lo lo' [] hi h a = omega arith
Ascending-weaken lo lo' (r ∷ rs) hi h a = (omega arith, a.1)

-- A removal keeps the order of the other rows.
pub Removes-Ascending :
    {x : Row} {xs ys : List Row}
    → Removes x xs ys
    → (lo hi : ℕ) → Ascending lo xs hi
    → Ascending lo ys hi
Removes-Ascending {x} (here xs) lo hi a = Ascending-weaken x.sequence lo xs hi (omega arith) a.1
Removes-Ascending (there y r) lo hi a = (a.0, Removes-Ascending r y.sequence hi a.1)

-- A row with the next sequence number goes to the end.
pub Ascending-append :
    (lo : ℕ) (rows : List Row) (hi : ℕ) (r : Row)
    → Ascending lo rows hi
    → r.sequence ≡ suc hi
    → Ascending lo (rows ++ r ∷ []) (suc hi)
Ascending-append lo [] hi r a e = omega arith
Ascending-append lo (x ∷ xs) hi r a e = (a.0, Ascending-append x.sequence xs hi r a.1 e)

pub Ascending-le : (lo : ℕ) (rows : List Row) (hi : ℕ) → Ascending lo rows hi → lo ≤ hi
Ascending-le lo [] hi a = a
Ascending-le lo (r ∷ rs) hi a = omega (arith, Ascending-le r.sequence rs hi a.1)

pub Ascending-All :
    (lo : ℕ) (rows : List Row) (hi : ℕ)
    → Ascending lo rows hi
    → All (λ r. (lo < r.sequence) × (r.sequence ≤ hi)) rows
Ascending-All lo [] hi a = tt
Ascending-All lo (r ∷ rs) hi a =
    ((a.0, Ascending-le r.sequence rs hi a.1), weaken rs (Ascending-All r.sequence rs hi a.1))
  where
    weaken :
        (xs : List Row)
        → All (λ x. (r.sequence < x.sequence) × (x.sequence ≤ hi)) xs
        → All (λ x. (lo < x.sequence) × (x.sequence ≤ hi)) xs
    weaken [] h = tt
    weaken (x ∷ xs) h = ((omega (arith, a.0), h.0.1), weaken xs h.1)

pub payload_bytes-append :
    (rows : List Row) (r : Row)
    → payload_bytes (rows ++ r ∷ []) ≡ payload_bytes rows + length r.payload
unfolding payload_bytes
payload_bytes-append [] r = omega arith
payload_bytes-append (x ∷ xs) r = omega (arith, payload_bytes-append xs r)

pub dead_payload_bytes-append :
    (rows : List DeadRow) (r : DeadRow)
    → dead_payload_bytes (rows ++ r ∷ []) ≡ dead_payload_bytes rows + length r.payload
unfolding dead_payload_bytes
dead_payload_bytes-append [] r = omega arith
dead_payload_bytes-append (x ∷ xs) r = omega (arith, dead_payload_bytes-append xs r)
