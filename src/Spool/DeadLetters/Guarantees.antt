-- ===== src/Spool/DeadLetters/Guarantees.antt =====
-- `move_to_dead_letter` as a whole: its rows, its transaction and its errors.
use mathlib.Core.Path.{subst}
use hass_questdb_writer.Prelude.{
  ℕ, suc, ◌+◌, ◌<◌, ◌≤◌, ◌≡◌, refl, sym, ap, ◌∙◌, ◌⊎◌, inl, inr, Bool, true, false, Option, none,
  List, [], ◌∷◌, ◌++◌, length, drop, keep, find_by, find_by-eq-none, arith, All, All-Member, Member,
  Bool-cases, Option-cases, ok, err, is_empty, ℤ, Text, pure,
}
use hass_questdb_writer.Prelude.Members.{Member-map}
use hass_questdb_writer.Spool.Types.{
  Error, SqliteError, spool_state, dead_letter_full, Row, Db, Limits, Spool,
}
use hass_questdb_writer.Spool.Errors.{classified}
use hass_questdb_writer.Spool.Table.{same_sequence, stats_row}
use hass_questdb_writer.Spool.Transaction.{
  transaction, classified_transaction, sequence_tuple, error_text, no_duplicates, in_sqlite_range,
}
use hass_questdb_writer.Spool.Transaction.Outcome.{
  sequence_tuple_cases, classified_transaction-keeps,
}
use hass_questdb_writer.Spool.Enqueue.Selection.{find_by-Member}
use hass_questdb_writer.Spool.DeadLetters.{Progress, select_rows, move_body, move_to_dead_letter}
use hass_questdb_writer.Spool.DeadLetters.Room.{fits}
use hass_questdb_writer.Spool.DeadLetters.Batch.{sequences_of, dead_rows, move_all_cases}
use hass_questdb_writer.Spool.Deliver.Marks.{all_present, outside, no_duplicates_of_ok}
use hass_questdb_writer.Spool.Invariant.{dead_payload_bytes, IsConsistent, IsWithin}

-- The rows that are read are the pending rows with the sequence numbers asked for, in their order.
record Selects (qs : List ℕ) (d : Db) (records : List Row) : Type 0 where
  pub numbers : sequences_of records ≡ qs
  pub members : All (λ z. Member z d.pending) records

select_rows_cases :
    (qs : List ℕ) (d : Db)
    → ((records : List Row) × (select_rows qs d ≡ ok records) × Selects qs d records)
      ⊎ ((select_rows qs d ≡ err spool_state) × (all_present qs d.pending ≡ false))
unfolding select_rows all_present
select_rows_cases [] d = inl ([], refl, record { numbers = refl; members = tt })
select_rows_cases (q ∷ qs) d = elim (Option-cases (find_by (same_sequence q) d.pending)) [
  | inl gone ↦ inr (
    rw (gone, select_rows) refl,
    ground (arith, find_by-eq-none (same_sequence q) d.pending gone),
  )
  | inr (r, found) ↦
      let (same, m) = find_by-Member (same_sequence q) d.pending r found in
      elim (select_rows_cases qs d) [
        | inr (gone, missing) ↦ inr (rw (found, gone, select_rows) refl, ground (arith, missing))
        | inl (records, e, s) ↦ inl (
          r ∷ records,
          rw (found, e, select_rows) refl,
          record { numbers = ground (arith, same, s.numbers); members = (m, s.members) },
        )
      ]
]

length_numbers :
    (qs : List ℕ) (records : List Row) → sequences_of records ≡ qs → length records ≡ length qs
length_numbers qs records e = subst (λ ns. length records ≡ length ns) e (count records)
  where
    count : (rows : List Row) → length rows ≡ length (sequences_of rows)
    count [] = refl
    count (r ∷ rows) = ap suc (count rows)

-- The queue loses exactly the rows with the numbers `qs`; the dead letters gain them, in the order
-- of `qs`, behind the older ones, of which the `evicted` oldest are dropped;
-- the newest one stays.
pub record MovesTo (failed_ns : ℤ) (last_error : Text) (delivery_uncertain : Bool) (qs : List ℕ)
    (d : Db) (evicted : ℕ) (d' : Db) : Type 0 where
  pub records : List Row
  pub numbers : sequences_of records ≡ qs
  pub members : All (λ z. Member z d.pending) records
  pub pending : d'.pending ≡ keep (outside qs) d.pending
  pub dead :
      d'.dead_letter
      ≡ drop evicted (
          d.dead_letter
          ++ dead_rows failed_ns last_error delivery_uncertain d.last_dead_letter_id records)
  pub newest : (qs ≡ []) ⊎ (evicted < length d.dead_letter + length qs)
  pub consistent : IsConsistent d'

-- A payload that is as long as any event may be fits when all dead letters are evicted.
abbrev pub CanBury : Limits → Type 0
CanBury limits =
    (1 ≤ limits.max_dead_letter_rows) × (limits.max_event_bytes ≤ limits.max_dead_letter_bytes)

module _ (limits : Limits) (failed_ns : ℤ) (last_error : Text) (delivery_uncertain : Bool) where
  abbrev start : Db → Progress
  start d = record {
    current_rows = length d.dead_letter;
    current_bytes = dead_payload_bytes d.dead_letter;
    moved = 0;
    evicted = 0;
  }

  moved_count :
      (qs : List ℕ) (records : List Row) (p : Progress) (d : Db) (k : ℕ)
      → sequences_of records ≡ qs
      → p.moved ≡ 0 + length records
      → p.evicted ≡ 0 + k
      → pure {E = Error} {A = ℕ × ℕ} (p.moved, p.evicted) d ≡ (ok (length qs, k), d)
  moved_count qs records p d k e m n =
      let total : p.moved ≡ length qs = omega (arith, m, length_numbers qs records e) in
      let gone : p.evicted ≡ k = omega (arith, n) in rw (total, gone) refl

  newest_of :
      (d : Db) (k : ℕ) (qs : List ℕ) (records : List Row)
      → sequences_of records ≡ qs
      → ((records ≡ []) × (k ≡ 0)) ⊎ (k < length d.dead_letter + length records)
      → (qs ≡ []) ⊎ (k < length d.dead_letter + length qs)
  newest_of d k qs records e (inl (none_, _)) = inl (sym e ∙ ap sequences_of none_)
  newest_of d k qs records e (inr l) = inr (omega (arith, l, length_numbers qs records e))

  pub move_body_cases :
      (qs : List ℕ) (d : Db)
      → IsConsistent d
      → no_duplicates qs ≡ true
      → is_empty last_error ≡ false
      → ((k : ℕ) × (d' : Db) × (move_body limits qs failed_ns last_error delivery_uncertain d
            ≡ (ok (length qs, k), d'))
          × MovesTo failed_ns last_error delivery_uncertain qs d k d'
          × (IsWithin limits d → IsWithin limits d'))
        ⊎ ((x : Error) × (d' : Db) × (move_body limits qs failed_ns last_error delivery_uncertain d
              ≡ (err x, d'))
            × (((x ≡ spool_state) × (all_present qs d.pending ≡ false))
                ⊎ ((x ≡ dead_letter_full)
                    × ((r : Row) × Member r d.pending
                        × Member r.sequence qs
                        × (fits limits (length r.payload) [] ≡ false)))))
  unfolding move_body stats_row
  move_body_cases qs d c n t = elim (select_rows_cases qs d) [
    | inr (gone, missing) ↦ inr (spool_state, d, rw gone refl, inl (refl, missing))
    | inl (records, e, s) ↦
        elim (move_all_cases failed_ns last_error delivery_uncertain limits records (start d) d c
          (record { rows = refl; bytes = refl }) s.members (rw s.numbers n) t) [
            | inl (k, p', d', run, m) ↦ inl (
              k,
              d',
              rw (e, c.counted, run) (moved_count qs records p' d' k s.numbers m.moved m.evicted),
              record {
                records = records;
                numbers = s.numbers;
                members = s.members;
                pending = rw (← s.numbers) m.pending;
                dead = m.dead;
                newest = newest_of d k qs records s.numbers m.newest;
                consistent = m.consistent;
              },
              m.within,
            )
            | inr (r, d', m, run, small) ↦ inr (
              dead_letter_full,
              d',
              rw (e, c.counted, run) refl,
              inr (
                refl,
                (
                  r,
                  All-Member (λ z. Member z d.pending) r records s.members m,
                  subst (Member r.sequence) s.numbers
                      (Member-map (λ (z : Row). z.sequence) records r m),
                  small,
                ),
              ),
            )
          ]
  ]

  -- The call moved all rows, and `k` dead letters were evicted for them.
  abbrev pub MovedAll : List ℕ → Spool → Type 0
  MovedAll qs s =
      (k : ℕ) × (d' : Db) × (move_to_dead_letter limits none qs last_error failed_ns
          delivery_uncertain s
        ≡ (ok (length qs, k), record s { db = d' }))
      × MovesTo failed_ns last_error delivery_uncertain qs s.db k d'

  -- The call raised and changed nothing: a row is missing, or one of those asked for is too large for
  -- the dead letters.
  abbrev pub MovedNone : List ℕ → Spool → Type 0
  MovedNone qs s =
      (x : Error) × (move_to_dead_letter limits none qs last_error failed_ns delivery_uncertain s
        ≡ (err x, s))
      × (((x ≡ spool_state) × (all_present qs s.db.pending ≡ false))
          ⊎ ((x ≡ dead_letter_full)
              × ((r : Row) × Member r s.db.pending
                  × Member r.sequence qs
                  × (fits limits (length r.payload) [] ≡ false))))

  -- A call on an open spool whose storage works either moves the rows, or raises and changes
  -- nothing: for a missing row, or for a row asked for whose payload fits not even beside no other.
  pub move_to_dead_letter_lem :
      (qs : List ℕ) (s : Spool)
      → IsConsistent s.db
      → s.is_open ≡ true
      → sequence_tuple qs ≡ ok qs
      → is_empty last_error ≡ false
      → in_sqlite_range failed_ns ≡ true
      → is_empty qs ≡ false
      → MovedAll qs s ⊎ MovedNone qs s
  unfolding move_to_dead_letter classified_transaction transaction classified error_text
  move_to_dead_letter_lem qs s c open_ v t range_ some_ =
      elim (move_body_cases qs s.db c (no_duplicates_of_ok qs v) t) [
        | inl (k, d', run, m, _) ↦ inl (k, d', ground (arith, v, open_, t, range_, some_, run), m)
        | inr (x, d', run, inl (e, missing)) ↦
            inr
              (spool_state, ground (arith, v, open_, t, range_, some_, run, e), inl (refl, missing))
        | inr (x, d', run, inr (e, small)) ↦ inr (
          dead_letter_full,
          ground (arith, v, open_, t, range_, some_, run, e),
          inr (refl, small),
        )
      ]

  move_body-keeps :
      (qs : List ℕ) (d : Db)
      → IsConsistent d
      → IsWithin limits d
      → no_duplicates qs ≡ true
      → is_empty last_error ≡ false
      → (a : ℕ × ℕ) (d' : Db)
      → move_body limits qs failed_ns last_error delivery_uncertain d ≡ (ok a, d')
      → IsConsistent d' × IsWithin limits d'
  move_body-keeps qs d c w n t a d' h = elim (move_body_cases qs d c n t) [
    | inr (x, d1, run, _) ↦ absurd (cc (run, h))
    | inl (k, d1, run, m, within) ↦
        let same : d1 ≡ d' = ap (λ p. p.1) (sym run ∙ h) in
        subst (λ u. IsConsistent u × IsWithin limits u) same (m.consistent, within w)
  ]

-- Every call keeps the invariant of the database and its limits, whether it returns or raises.
pub move_to_dead_letter-IsConsistent :
    (limits : Limits) (fault : Option SqliteError) (qs : List ℕ) (last_error : Text) (failed_ns : ℤ)
    (delivery_uncertain : Bool) (s : Spool)
    → IsConsistent s.db
    → IsWithin limits s.db
    → IsConsistent
        (move_to_dead_letter limits fault qs last_error failed_ns delivery_uncertain s).1.db
      × IsWithin limits
          (move_to_dead_letter limits fault qs last_error failed_ns delivery_uncertain s).1.db
unfolding move_to_dead_letter error_text
move_to_dead_letter-IsConsistent limits fault qs last_error failed_ns delivery_uncertain s c w =
    elim (sequence_tuple_cases qs) [
      | inr bad ↦ rw (bad, move_to_dead_letter) (c, w)
      | inl (v, n, _) ↦ elim (Bool-cases (is_empty last_error)) [
        | inl t ↦ rw (v, t, move_to_dead_letter) (c, w)
        | inr t ↦ elim (Bool-cases (in_sqlite_range failed_ns)) [
          | inr range_ ↦ rw (v, t, range_, move_to_dead_letter) (c, w)
          | inl range_ ↦ elim (Bool-cases (is_empty qs)) [
            | inl none_ ↦ rw (v, t, range_, none_, move_to_dead_letter) (c, w)
            | inr some_ ↦
                rw (v, t, range_, some_, move_to_dead_letter)
                  (classified_transaction-keeps
                    (move_body limits qs failed_ns last_error delivery_uncertain) fault s
                    (λ d. IsConsistent d × IsWithin limits d)
                    (move_body-keeps limits failed_ns last_error delivery_uncertain qs s.db c w n t)
                    (c, w))
          ]
        ]
      ]
    ]

-- A spool that can bury every payload that it accepts never refuses a move for its size.
pub move_to_dead_letter-never_full :
    (limits : Limits) (qs : List ℕ) (last_error : Text) (failed_ns : ℤ) (delivery_uncertain : Bool)
    (s : Spool)
    → CanBury limits
    → IsConsistent s.db
    → IsWithin limits s.db
    → s.is_open ≡ true
    → sequence_tuple qs ≡ ok qs
    → is_empty last_error ≡ false
    → in_sqlite_range failed_ns ≡ true
    → is_empty qs ≡ false
    → all_present qs s.db.pending ≡ true
    → MovedAll limits failed_ns last_error delivery_uncertain qs s
unfolding dead_payload_bytes
move_to_dead_letter-never_full limits qs last_error failed_ns delivery_uncertain s b c w open_ v t
      range_ some_ here_ =
    elim (move_to_dead_letter_lem limits failed_ns last_error delivery_uncertain qs s c open_ v t
      range_ some_) [
        | inl done ↦ done
        | inr (x, run, inl (e, missing)) ↦ absurd (ground (arith, here_, missing))
        | inr (x, run, inr (e, (r, m, _, small))) ↦
            let short =
              All-Member (λ z. length z.payload ≤ limits.max_event_bytes) r s.db.pending w.payloads
                m in
            absurd (ground (arith, b.0, b.1, short, small))
      ]
