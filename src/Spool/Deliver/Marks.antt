-- ===== src/Spool/Deliver/Marks.antt =====
-- `mark_delivered`: the rows that it removes.
use mathlib.Core.Path.{subst}
use hass_questdb_writer.Prelude.{
  ℕ, ◌≤◌, ◌<◌, ◌≡◌, refl, sym, ap, ◌∙◌, ◌⊎◌, inl, inr, Bool, true, false, not, ◌&&◌, Option, none,
  List, [], ◌∷◌, length, any_of, keep, keep-All, arith, All-mono, if◌then◌else◌, ◌==◌, ==_refl, ok,
  err,
}
use hass_questdb_writer.Spool.Types.{SqliteError, spool_state, Row, Db, Limits, Spool}
use hass_questdb_writer.Spool.Table.{remove_by, same_sequence}
use hass_questdb_writer.Spool.Transaction.{
  no_duplicates, sequence_tuple, transaction, classified_transaction,
}
use hass_questdb_writer.Spool.Transaction.Outcome.{
  sequence_tuple_cases, classified_transaction-keeps,
}
use hass_questdb_writer.Spool.Errors.{classified}
use hass_questdb_writer.Spool.Deliver.{delete_all, delete_body, mark_delivered}
use hass_questdb_writer.Spool.Invariant.{Ascending, IsConsistent, IsWithin}
use hass_questdb_writer.Spool.Invariant.Rows.{Removes, here, there, Removes-at, Ascending-All}
use hass_questdb_writer.Spool.Invariant.Statements.{
  delete_pending_cases, removed, removed-IsConsistent, removed-IsWithin,
}

-- Whether every sequence number is that of a row.
unfoldable pub all_present : List ℕ → List Row → Bool
all_present [] rows = true
all_present (q ∷ qs) rows = any_of (same_sequence q) rows && all_present qs rows

-- Whether the row has none of the sequence numbers.
unfoldable pub outside : List ℕ → Row → Bool
outside qs r = not (any_of (λ q. r.sequence == q) qs)

abbrev pub other_than : ℕ → Row → Bool
other_than q r = not (r.sequence == q)

-- The row that is removed is the only one with its number.
pub Removes-keep :
    {x : Row} {xs ys : List Row} (lo hi : ℕ)
    → Removes x xs ys
    → Ascending lo xs hi
    → ys ≡ keep (other_than x.sequence) xs
unfolding keep
Removes-keep {x} lo hi (here xs) a = rw (==_refl x.sequence) (
    sym (
      keep-All (other_than x.sequence) xs
        (All-mono (λ r h. ground (arith, h)) xs (Ascending-All x.sequence xs hi a.1))))
Removes-keep {x} lo hi (there y {xs = xs} r) a =
    let above =
      Removes-at (λ z. (y.sequence < z.sequence) × (z.sequence ≤ hi)) r
        (Ascending-All y.sequence xs hi a.1) in
    ground (arith, above.0, Removes-keep y.sequence hi r a.1)

-- Removing one number and then others is removing them together.
pub keep-outside :
    (q : ℕ) (qs : List ℕ) (rows : List Row)
    → keep (outside qs) (keep (other_than q) rows) ≡ keep (outside (q ∷ qs)) rows
unfolding keep outside any_of
keep-outside q qs [] = refl
keep-outside q qs (r ∷ rs) = ground (arith, keep-outside q qs rs)

any_of_other :
    (p q : ℕ) (rows : List Row)
    → (p == q) ≡ false
    → any_of (same_sequence p) (keep (other_than q) rows) ≡ any_of (same_sequence p) rows
unfolding keep any_of
any_of_other p q [] h = refl
any_of_other p q (r ∷ rs) h = ground (arith, any_of_other p q rs h)

all_present_other :
    (q : ℕ) (qs : List ℕ) (rows : List Row)
    → any_of (λ p. p == q) qs ≡ false
    → all_present qs (keep (other_than q) rows) ≡ all_present qs rows
unfolding all_present any_of
all_present_other q [] rows h = refl
all_present_other q (p ∷ ps) rows h =
    ground (arith, any_of_other p q rows, all_present_other q ps rows)

pub remove_by-eq-none :
    (q : ℕ) (rows : List Row)
    → remove_by (same_sequence q) rows ≡ none
    → any_of (same_sequence q) rows ≡ false
unfolding remove_by any_of
remove_by-eq-none q [] h = refl
remove_by-eq-none q (r ∷ rs) h = ground (arith, remove_by-eq-none q rs)

pub Removes-any_of :
    {x : Row} {xs ys : List Row} → Removes x xs ys → any_of (same_sequence x.sequence) xs ≡ true
unfolding any_of
Removes-any_of {x} (here xs) = rw (==_refl x.sequence)
Removes-any_of (there y r) = ground (arith, Removes-any_of r)

-- The database without the rows of the sequence numbers.
abbrev pub without : List ℕ → Db → Db
without qs d = removed (keep (outside qs) d.pending) d

pub keep-outside_nil : (rows : List Row) → keep (outside []) rows ≡ rows
unfolding keep outside any_of
keep-outside_nil [] = refl
keep-outside_nil (r ∷ rs) = ap (◌∷◌ r) (keep-outside_nil rs)

-- All rows are deleted where all are there, and the first that is missing raises.
pub delete_all_cases :
    (qs : List ℕ) (d : Db)
    → IsConsistent d
    → no_duplicates qs ≡ true
    → ((all_present qs d.pending ≡ true)
        × (delete_all qs d ≡ (ok tt, without qs d))
        × IsConsistent (without qs d)
        × ((limits : Limits) → IsWithin limits d → IsWithin limits (without qs d)))
      ⊎ ((all_present qs d.pending ≡ false) × (d' : Db) × (delete_all qs d ≡ (err spool_state, d')))
unfolding delete_all all_present no_duplicates
delete_all_cases [] d c n =
    let same : without [] d ≡ d = ground (arith, keep-outside_nil d.pending, c.counted) in
    inl (refl, ap (λ t. (ok tt, t)) (sym same), rw same c, λ limits w. rw same w)
delete_all_cases (q ∷ qs) d c n = elim (delete_pending_cases q d c.counted) [
  | inl (e, gone) ↦ inr (ground (arith, remove_by-eq-none q d.pending gone), d, rw (e, delete_all))
  | inr (x, rest, r, same, e) ↦
      let one : rest ≡ keep (other_than q) d.pending =
        subst (λ k. rest ≡ keep (other_than k) d.pending) same
          (Removes-keep 0 d.last_sequence r c.ordered) in
      let found : any_of (same_sequence q) d.pending ≡ true =
        subst (λ k. any_of (same_sequence k) d.pending ≡ true) same (Removes-any_of r) in
      let others : all_present qs rest ≡ all_present qs d.pending =
        rw one (all_present_other q qs d.pending (ground arith)) in
      let together : without qs (removed rest d) ≡ without (q ∷ qs) d =
        ground (arith, one, keep-outside q qs d.pending) in
      elim (delete_all_cases qs (removed rest d) (removed-IsConsistent d r c) (ground arith)) [
        | inl (here_, run, kept, fits) ↦ inl (
          ground (arith, found, others, here_),
          rw (e, delete_all) (run ∙ ap (λ t. (ok tt, t)) together),
          rw (← together) kept,
          λ limits w. rw (← together) (fits limits (removed-IsWithin limits d r w)),
        )
        | inr (missing, d', run) ↦
            inr (ground (arith, found, others, missing), d', rw (e, delete_all) run)
      ]
]

pub no_duplicates_of_ok : (qs : List ℕ) → sequence_tuple qs ≡ ok qs → no_duplicates qs ≡ true
unfolding sequence_tuple
no_duplicates_of_ok qs v = ground arith

-- On an open spool whose storage works, a call with positive, distinct sequence numbers removes
-- exactly their rows, if all are there, and else raises and changes nothing.
pub mark_delivered_lem :
    (qs : List ℕ) (s : Spool)
    → IsConsistent s.db
    → s.is_open ≡ true
    → sequence_tuple qs ≡ ok qs
    → mark_delivered none qs s ≡ (
        if all_present qs s.db.pending
        then (ok (length qs), record s { db = without qs s.db })
        else (err spool_state, s))
unfolding mark_delivered classified_transaction transaction classified all_present
mark_delivered_lem [] s c open_ v =
    let same : without [] s.db ≡ s.db = ground (arith, keep-outside_nil s.db.pending, c.counted) in
    ground (arith, same)
mark_delivered_lem (q ∷ qs) s c open_ v =
    elim (delete_all_cases (q ∷ qs) s.db c (no_duplicates_of_ok (q ∷ qs) v)) [
      | inl (here_, run, _, _) ↦ ground (arith, v, open_, run, here_)
      | inr (missing, d', run) ↦ ground (arith, v, open_, run, missing)
    ]

delete_body-ok :
    (limits : Limits) (qs : List ℕ) (d : Db)
    → IsConsistent d
    → IsWithin limits d
    → no_duplicates qs ≡ true
    → (n : ℕ) (d' : Db) → delete_body qs d ≡ (ok n, d')
    → IsConsistent d' × IsWithin limits d'
unfolding delete_body
delete_body-ok limits qs d c w n k d' h = elim (delete_all_cases qs d c n) [
  | inr (_, d'', run) ↦ absurd (ground (arith, run))
  | inl (_, run, kept, fits) ↦
      let same : without qs d ≡ d' = ground (arith, run) in
      subst (λ t. IsConsistent t × IsWithin limits t) same (kept, fits limits w)
]

-- Every call keeps the invariant of the database and its limits, whether it returns or raises.
pub mark_delivered-IsConsistent :
    (limits : Limits) (fault : Option SqliteError) (qs : List ℕ) (s : Spool)
    → IsConsistent s.db
    → IsWithin limits s.db
    → IsConsistent (mark_delivered fault qs s).1.db
      × IsWithin limits (mark_delivered fault qs s).1.db
unfolding mark_delivered
mark_delivered-IsConsistent limits fault [] s c w = (c, w)
mark_delivered-IsConsistent limits fault (q ∷ qs) s c w = elim (sequence_tuple_cases (q ∷ qs)) [
  | inr bad ↦ rw (bad, mark_delivered) (c, w)
  | inl (v, n, _) ↦
      rw (v, mark_delivered)
        (classified_transaction-keeps (delete_body (q ∷ qs)) fault s
          (λ d. IsConsistent d × IsWithin limits d) (delete_body-ok limits (q ∷ qs) s.db c w n)
          (c, w))
]
