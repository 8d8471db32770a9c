-- ===== src/Spool/Deliver/Attempts.antt =====
-- `record_attempt`: the rows that it marks.
use mathlib.Core.Path.{subst}
use hass_questdb_writer.Prelude.{
  ℕ, ◌<◌, ◌≡◌, refl, sym, ap, ◌∙◌, ◌⊎◌, inl, inr, Bool, true, false, Option, none, some, List, [],
  ◌∷◌, map, length, any_of, arith, All, All-mono, Bool-cases, if◌then◌else◌, ◌==◌, ==_iff, ok, err,
  is_empty, Text,
}
use hass_questdb_writer.Spool.Types.{SqliteError, spool_state, Row, Db, Limits, Spool}
use hass_questdb_writer.Spool.Table.{same_sequence, attempted, bump_attempt, update_attempt}
use hass_questdb_writer.Spool.Transaction.{
  no_duplicates, sequence_tuple, transaction, classified_transaction,
}
use hass_questdb_writer.Spool.Transaction.Outcome.{
  sequence_tuple_cases, classified_transaction-keeps,
}
use hass_questdb_writer.Spool.Errors.{classified}
use hass_questdb_writer.Spool.Deliver.{attempt_all, attempt_body, record_attempt}
use hass_questdb_writer.Spool.Deliver.Marks.{all_present, no_duplicates_of_ok}
use hass_questdb_writer.Spool.Invariant.{Ascending, IsConsistent, IsWithin}
use hass_questdb_writer.Spool.Invariant.Rows.{Ascending-All}
use hass_questdb_writer.Spool.Invariant.Updates.{SameEvent, update-IsConsistent, update-IsWithin}

module _ (last_error : Text) (delivery_uncertain : Bool) where
  -- The row after an attempt on the rows with the sequence numbers.
  unfoldable pub marked : List ℕ → Row → Row
  marked qs r =
      if any_of (λ q. r.sequence == q) qs then attempted last_error delivery_uncertain r else r

  abbrev one_marked : ℕ → Row → Row
  one_marked q r = if same_sequence q r then attempted last_error delivery_uncertain r else r

  none_marked :
      (q : ℕ) (rows : List Row) → All (λ r. q < r.sequence) rows → map (one_marked q) rows ≡ rows
  none_marked q [] h = refl
  none_marked q (r ∷ rs) h = ground (arith, h.0, none_marked q rs h.1)

  bump_attempt-map :
      (q lo : ℕ) (rows : List Row) (hi : ℕ)
      → Ascending lo rows hi
      → bump_attempt q last_error delivery_uncertain rows
        ≡ (if any_of (same_sequence q) rows then some (map (one_marked q) rows) else none)
  unfolding bump_attempt any_of
  bump_attempt-map q lo [] hi a = refl
  bump_attempt-map q lo (r ∷ rs) hi a = elim (Bool-cases (r.sequence == q)) [
    | inl hit ↦
        let e : r.sequence ≡ q = (==_iff r.sequence q).0 hit in
        ground (
          arith,
          none_marked q rs
              (All-mono (λ x h. omega (arith, h, e)) rs (Ascending-All r.sequence rs hi a.1)),
        )
    | inr miss ↦ ground (arith, miss, bump_attempt-map q r.sequence rs hi a.1)
  ]

  any_of_sym : (a q : ℕ) (qs : List ℕ) → a ≡ q → any_of (λ p. a == p) qs ≡ any_of (λ p. p == q) qs
  unfolding any_of
  any_of_sym a q [] h = refl
  any_of_sym a q (p ∷ ps) h = ground (arith, any_of_sym a q ps h)

  marked_one :
      (q : ℕ) (qs : List ℕ)
      → any_of (λ p. p == q) qs ≡ false
      → (r : Row) → marked qs (one_marked q r) ≡ marked (q ∷ qs) r
  unfolding marked any_of
  marked_one q qs n r = ground (arith, any_of_sym r.sequence q qs)

  map-marked :
      (q : ℕ) (qs : List ℕ)
      → any_of (λ p. p == q) qs ≡ false
      → (rows : List Row) → map (marked qs) (map (one_marked q) rows) ≡ map (marked (q ∷ qs)) rows
  map-marked q qs n [] = refl
  map-marked q qs n (r ∷ rs) = cc (marked_one q qs n r, map-marked q qs n rs)

  one_marked-SameEvent : (q : ℕ) (r : Row) → SameEvent r (one_marked q r)
  one_marked-SameEvent q r = ground arith

  pub marked-SameEvent : (qs : List ℕ) (r : Row) → SameEvent r (marked qs r)
  unfolding marked
  marked-SameEvent qs r = ground arith

  any_of_marked :
      (p q : ℕ) (rows : List Row)
      → any_of (same_sequence p) (map (one_marked q) rows) ≡ any_of (same_sequence p) rows
  unfolding any_of
  any_of_marked p q [] = refl
  any_of_marked p q (r ∷ rs) = ground (arith, any_of_marked p q rs)

  all_present_marked :
      (q : ℕ) (qs : List ℕ) (rows : List Row)
      → all_present qs (map (one_marked q) rows) ≡ all_present qs rows
  unfolding all_present
  all_present_marked q [] rows = refl
  all_present_marked q (p ∷ ps) rows =
      ground (arith, any_of_marked p q rows, all_present_marked q ps rows)

  -- The database after one attempt on the rows of the sequence numbers.
  abbrev pub attempted_on : List ℕ → Db → Db
  attempted_on qs d = record d { pending = map (marked qs) d.pending }

  attempted_on_nil : (rows : List Row) → map (marked []) rows ≡ rows
  unfolding marked any_of
  attempted_on_nil [] = refl
  attempted_on_nil (r ∷ rs) = ap (◌∷◌ r) (attempted_on_nil rs)

  abbrev one_attempted : ℕ → Db → Db
  one_attempted q d = record d { pending = map (one_marked q) d.pending }

  update_attempt_lem :
      (q : ℕ) (d : Db)
      → IsConsistent d
      → update_attempt q last_error delivery_uncertain d
        ≡ (if any_of (same_sequence q) d.pending then (ok 1, one_attempted q d) else (ok 0, d))
  unfolding update_attempt
  update_attempt_lem q d c =
      ground (arith, bump_attempt-map q 0 d.pending d.last_sequence c.ordered)

  -- Every row is updated where all are there, and the first that is missing raises.
  pub attempt_all_cases :
      (qs : List ℕ) (d : Db)
      → IsConsistent d
      → no_duplicates qs ≡ true
      → ((all_present qs d.pending ≡ true)
          × (attempt_all qs last_error delivery_uncertain d ≡ (ok tt, attempted_on qs d)))
        ⊎ ((all_present qs d.pending ≡ false)
            × (d' : Db) × (attempt_all qs last_error delivery_uncertain d ≡ (err spool_state, d')))
  unfolding attempt_all all_present no_duplicates
  attempt_all_cases [] d c n =
      inl
        (refl, ap (λ rows. (ok tt, record d { pending = rows })) (sym (attempted_on_nil d.pending)))
  attempt_all_cases (q ∷ qs) d c n = elim (Bool-cases (any_of (same_sequence q) d.pending)) [
    | inr missing ↦
        inr (ground (arith, missing), d, ground (arith, update_attempt_lem q d c, missing))
    | inl found ↦
        let run : update_attempt q last_error delivery_uncertain d ≡ (ok 1, one_attempted q d) =
          ground (arith, update_attempt_lem q d c, found) in
        elim (attempt_all_cases qs (one_attempted q d)
          (update-IsConsistent (one_marked q) (one_marked-SameEvent q) d c) (ground arith)) [
            | inl (here_, rest) ↦ inl (
              ground (arith, found, here_, all_present_marked q qs d.pending),
              rw run (
                  rest
                  ∙ ap (λ rows. (ok tt, record d { pending = rows }))
                      (map-marked q qs (ground arith) d.pending)),
            )
            | inr (missing, d', rest) ↦
                inr (
                  ground (arith, found, missing, all_present_marked q qs d.pending),
                  d',
                  rw run rest,
                )
          ]
  ]

  -- On an open spool whose storage works, a call with a text and with positive, distinct sequence
  -- numbers counts one attempt on exactly their rows, keeps the text there, and never clears an
  -- uncertain flag; where a row is missing it raises and changes nothing.
  pub record_attempt_lem :
      (qs : List ℕ) (s : Spool)
      → IsConsistent s.db
      → s.is_open ≡ true
      → sequence_tuple qs ≡ ok qs
      → is_empty last_error ≡ false
      → record_attempt none qs last_error delivery_uncertain s ≡ (
          if all_present qs s.db.pending
          then (ok (length qs), record s { db = attempted_on qs s.db })
          else (err spool_state, s))
  unfolding record_attempt classified_transaction transaction classified all_present
  record_attempt_lem [] s c open_ v t = ground (arith, t, attempted_on_nil s.db.pending)
  record_attempt_lem (q ∷ qs) s c open_ v t =
      elim (attempt_all_cases (q ∷ qs) s.db c (no_duplicates_of_ok (q ∷ qs) v)) [
        | inl (here_, run) ↦ ground (arith, v, t, open_, run, here_)
        | inr (missing, d', run) ↦ ground (arith, v, t, open_, run, missing)
      ]

  attempt_body-ok :
      (limits : Limits) (qs : List ℕ) (d : Db)
      → IsConsistent d
      → IsWithin limits d
      → no_duplicates qs ≡ true
      → (n : ℕ) (d' : Db) → attempt_body qs last_error delivery_uncertain d ≡ (ok n, d')
      → IsConsistent d' × IsWithin limits d'
  unfolding attempt_body
  attempt_body-ok limits qs d c w n k d' h = elim (attempt_all_cases qs d c n) [
    | inr (_, d'', run) ↦ absurd (ground (arith, run))
    | inl (_, run) ↦
        let same : attempted_on qs d ≡ d' = ground (arith, run) in
        subst (λ t. IsConsistent t × IsWithin limits t) same
          (
            update-IsConsistent (marked qs) (marked-SameEvent qs) d c,
            update-IsWithin (marked qs) (marked-SameEvent qs) limits d w,
          )
  ]

  -- Every call keeps the invariant of the database and its limits.
  pub record_attempt-IsConsistent :
      (limits : Limits) (fault : Option SqliteError) (qs : List ℕ) (s : Spool)
      → IsConsistent s.db
      → IsWithin limits s.db
      → IsConsistent (record_attempt fault qs last_error delivery_uncertain s).1.db
        × IsWithin limits (record_attempt fault qs last_error delivery_uncertain s).1.db
  unfolding record_attempt
  record_attempt-IsConsistent limits fault qs s c w = elim (sequence_tuple_cases qs) [
    | inr bad ↦ rw (bad, record_attempt) (c, w)
    | inl (v, n, _) ↦ elim (Bool-cases (is_empty last_error)) [
      | inl blank ↦ rw (v, blank, record_attempt) (c, w)
      | inr text ↦ elim (Bool-cases (is_empty qs)) [
        | inl nothing ↦ rw (v, text, nothing, record_attempt) (c, w)
        | inr more ↦
            rw (v, text, more, record_attempt)
              (classified_transaction-keeps (attempt_body qs last_error delivery_uncertain) fault s
                (λ d. IsConsistent d × IsWithin limits d) (attempt_body-ok limits qs s.db c w n)
                (c, w))
      ]
    ]
  ]
