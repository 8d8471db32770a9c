-- ===== src/Spool/DeadLetters/Batch.antt =====
-- The outer loop of `move_to_dead_letter`: `move_all`.
use mathlib.Core.List.{append_assoc, append-nil}
use hass_questdb_writer.Prelude.{
  length-append, zero, ◌<◌, ℕ, suc, ◌+◌, ◌≤◌, ◌≡◌, ◌≢◌, refl, sym, ap, ◌∙◌, ◌⊎◌, inl, inr, Bool,
  true, false, List, [], ◌∷◌, ◌++◌, map, length, drop, drop-append, drop-drop, keep, any_of, arith,
  All, Member, ◌==◌, ok, err, is_empty, ℤ, Text,
}
use hass_questdb_writer.Spool.Types.{dead_letter_full, Row, DeadRow, Db, Limits}
use hass_questdb_writer.Spool.Table.{dead_row}
use hass_questdb_writer.Spool.Transaction.{no_duplicates}
use hass_questdb_writer.Spool.DeadLetters.{Progress, move_all}
use hass_questdb_writer.Spool.DeadLetters.Room.{Counts, fits}
use hass_questdb_writer.Spool.DeadLetters.Moves.{dead_of, move_one_cases, MovesOne-IsWithin}
use hass_questdb_writer.Spool.Deliver.Marks.{outside, Removes-keep, keep-outside, keep-outside_nil}
use hass_questdb_writer.Spool.Invariant.{IsConsistent, IsWithin}
use hass_questdb_writer.Spool.Invariant.Rows.{Removes, here, there}

abbrev pub sequences_of : List Row → List ℕ
sequences_of rows = map (λ r. r.sequence) rows

Removes-of_Member :
    {A : Type 0} (x : A) (xs : List A) → Member x xs → (rest : List A) × Removes x xs rest
Removes-of_Member x [] m = absurd m
Removes-of_Member x (y ∷ ys) (inl e) = (ys, rw e (here ys))
Removes-of_Member x (y ∷ ys) (inr m) =
    let (rest, r) = Removes-of_Member x ys m in (y ∷ rest, there y r)

Member-of_Removes :
    {A : Type 0} {x : A} {xs ys : List A} (z : A)
    → Removes x xs ys
    → z ≢ x
    → Member z xs
    → Member z ys
Member-of_Removes z (here xs) n (inl e) = absurd (n e)
Member-of_Removes z (here xs) n (inr m) = m
Member-of_Removes z (there y r) n (inl e) = inl e
Member-of_Removes z (there y r) n (inr m) = inr (Member-of_Removes z r n m)

others_stay :
    (r : Row) (rs : List Row) {rows rest : List Row}
    → Removes r rows rest
    → any_of (λ q. q == r.sequence) (sequences_of rs) ≡ false
    → All (λ z. Member z rows) rs
    → All (λ z. Member z rest) rs
unfolding any_of
others_stay r [] v n m = tt
others_stay r (z ∷ zs) v n m = (
  Member-of_Removes z v (λ e. ground (arith, n, ap (λ (x : Row). x.sequence) e)) m.0,
  others_stay r zs v (ground (arith, n)) m.1,
)

module _ (failed_ns : ℤ) (last_error : Text) (delivery_uncertain : Bool) where
  -- The dead letters that a batch becomes, the first with the ID after `id`.
  unfoldable pub dead_rows : ℕ → List Row → List DeadRow
  dead_rows id [] = []
  dead_rows id (r ∷ rs) =
      dead_row r failed_ns last_error delivery_uncertain (suc id) ∷ dead_rows (suc id) rs

  -- The batch left the queue, in which all other rows stand as before; it stands behind the older
  -- dead letters, the `k` oldest of which were evicted.
  pub record Moves (limits : Limits) (p : Progress) (d : Db) (rs : List Row) (k : ℕ) (p' : Progress)
      (d' : Db) : Type 0 where
    pub pending : d'.pending ≡ keep (outside (sequences_of rs)) d.pending
    pub dead : d'.dead_letter ≡ drop k (d.dead_letter ++ dead_rows d.last_dead_letter_id rs)
    pub moved : p'.moved ≡ p.moved + length rs
    pub evicted : p'.evicted ≡ p.evicted + k
    pub newest : ((rs ≡ []) × (k ≡ 0)) ⊎ (k < length d.dead_letter + length rs)
    pub consistent : IsConsistent d'
    pub within : IsWithin limits d → IsWithin limits d'

  dead_split :
      (k0 k : ℕ) (dead : List DeadRow) (x : DeadRow) (xs : List DeadRow)
      → k0 ≤ length dead
      → drop k ((drop k0 dead ++ x ∷ []) ++ xs) ≡ drop (k0 + k) (dead ++ x ∷ xs)
  dead_split k0 k dead x xs h =
      rw append_assoc (rw (← drop-append k0 dead (x ∷ xs) h) (drop-drop k k0 (dead ++ x ∷ xs)))

  length-drop :
      {A : Type 0} (k : ℕ) (xs : List A) → k ≤ length xs → length (drop k xs) + k ≡ length xs
  length-drop zero xs h = omega arith
  length-drop (suc k) [] h = absurd (omega (arith, h))
  length-drop (suc k) (x ∷ xs) h = omega (arith, length-drop k xs (omega (arith, h)))

  newest_after :
      (k0 k : ℕ) (dead : List DeadRow) (x : DeadRow) (rs : List Row) (after : List DeadRow)
      → k0 ≤ length dead
      → after ≡ drop k0 dead ++ x ∷ []
      → ((rs ≡ []) × (k ≡ 0)) ⊎ (k < length after + length rs)
      → k0 + k < length dead + suc (length rs)
  newest_after k0 k dead x rs after h e n =
      let size : length after ≡ length (drop k0 dead) + 1 =
        ap (λ (t : List DeadRow). length t) e ∙ length-append (drop k0 dead) (x ∷ []) in
      elim n [
        | inl (none_, zero_) ↦ omega (arith, h, zero_)
        | inr l ↦ omega (arith, h, size, length-drop k0 dead h, l)
      ]

  pub move_all_cases :
      (limits : Limits) (rs : List Row) (p : Progress) (d : Db)
      → IsConsistent d
      → Counts p d
      → All (λ z. Member z d.pending) rs
      → no_duplicates (sequences_of rs) ≡ true
      → is_empty last_error ≡ false
      → ((k : ℕ) × (p' : Progress) × (d' : Db) × (move_all limits rs failed_ns last_error
              delivery_uncertain p d
            ≡ (ok p', d'))
          × Moves limits p d rs k p' d')
        ⊎ ((r : Row) × (d' : Db) × Member r rs
            × (move_all limits rs failed_ns last_error delivery_uncertain p d
                ≡ (err dead_letter_full, d'))
            × (fits limits (length r.payload) [] ≡ false))
  unfolding move_all dead_rows no_duplicates
  move_all_cases limits [] p d c n m u t = inl (
    0,
    p,
    d,
    refl,
    record {
      pending = sym (keep-outside_nil d.pending);
      dead = sym (append-nil d.dead_letter);
      moved = omega arith;
      evicted = omega arith;
      newest = inl (refl, refl);
      consistent = c;
      within = λ w. w;
    },
  )
  move_all_cases limits (r ∷ rs) p d c n m u t =
      let (rest, v) = Removes-of_Member r d.pending m.0 in
      elim (move_one_cases r failed_ns last_error delivery_uncertain limits p d rest c n v t) [
        | inr (d', run, small) ↦ inr (r, d', inl refl, rw run, small)
        | inl (k0, p1, d1, run, one) ↦
            elim (move_all_cases limits rs p1 d1 one.consistent one.counts
              (rw one.state (others_stay r rs v (ground (arith, u)) m.1)) (ground (arith, u)) t) [
                | inr (r', d', m', run', small) ↦ inr (r', d', inr m', rw run run', small)
                | inl (k, p', d', run', all) ↦ inl (
                  k0 + k,
                  p',
                  d',
                  rw run run',
                  record {
                    pending =
                        all.pending
                        ∙ ap (keep (outside (sequences_of rs))) (
                            ap (λ (t : Db). t.pending) one.state
                            ∙ Removes-keep 0 d.last_sequence v c.ordered)
                        ∙ keep-outside r.sequence (sequences_of rs) d.pending;
                    dead =
                        all.dead
                        ∙ ap
                            (λ (t : Db).
                              drop k (t.dead_letter ++ dead_rows t.last_dead_letter_id rs))
                            one.state
                        ∙ dead_split k0 k d.dead_letter
                            (dead_of r failed_ns last_error delivery_uncertain
                              (suc d.last_dead_letter_id))
                            (dead_rows (suc d.last_dead_letter_id) rs) one.size;
                    moved = omega (arith, all.moved, one.moved);
                    evicted = omega (arith, all.evicted, one.evicted);
                    newest = inr (
                        newest_after k0 k d.dead_letter
                          (dead_of r failed_ns last_error delivery_uncertain
                            (suc d.last_dead_letter_id))
                          rs d1.dead_letter one.size (ap (λ (t : Db). t.dead_letter) one.state)
                          all.newest);
                    consistent = all.consistent;
                    within = λ w. all.within (
                        MovesOne-IsWithin r failed_ns last_error delivery_uncertain limits p d rest
                          k0 p1 d1 v one w);
                  },
                )
              ]
      ]
