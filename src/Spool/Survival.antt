-- ===== src/Spool/Survival.antt =====
-- Where the event of a queued row is after `record_attempt` and `move_to_dead_letter`.
use mathlib.Core.Path.{subst}
use hass_questdb_writer.Prelude.{
  ℕ, zero, suc, ◌+◌, ◌<◌, ◌≡◌, refl, sym, ap, ◌∙◌, ◌⊎◌, inl, inr, Bool, true, false, Option, List,
  [], ◌∷◌, ◌++◌, length, drop, any_of, keep, arith, All-Member, Member, Bool-cases, ◌==◌, ok, ℤ,
  Text, is_empty,
}
use hass_questdb_writer.Prelude.Members.{Member-map}
use hass_questdb_writer.Spool.Types.{SqliteError, Row, DeadRow, Db, Limits, Spool}
use hass_questdb_writer.Spool.Table.{dead_row}
use hass_questdb_writer.Spool.Transaction.{no_duplicates, in_sqlite_range}
use hass_questdb_writer.Spool.Transaction.Outcome.{
  sequence_tuple_cases, classified_transaction-keeps,
}
use hass_questdb_writer.Spool.Deliver.{record_attempt, attempt_body}
use hass_questdb_writer.Spool.Deliver.Marks.{outside}
use hass_questdb_writer.Spool.Deliver.Attempts.{
  marked, marked-SameEvent, attempted_on, attempt_all_cases,
}
use hass_questdb_writer.Spool.DeadLetters.{move_to_dead_letter, move_body}
use hass_questdb_writer.Spool.DeadLetters.Batch.{sequences_of, dead_rows}
use hass_questdb_writer.Spool.DeadLetters.Guarantees.{MovesTo, move_body_cases}
use hass_questdb_writer.Spool.Invariant.{Ascending, IsConsistent}

-- The event of the row is in one of the two tables, with its ID and its payload.
abbrev pub Survives : Row → Db → Type 0
Survives r d =
    ((z : Row) × Member z d.pending × (z.event_id ≡ r.event_id) × (z.payload ≡ r.payload))
    ⊎ ((z : DeadRow) × Member z d.dead_letter × (z.event_id ≡ r.event_id) × (z.payload ≡ r.payload))

pub Survives-refl : (r : Row) (d : Db) → Member r d.pending → Survives r d
Survives-refl r d m = inl (r, m, refl, refl)

Member-keep :
    {A : Type 0} (test : A → Bool) (x : A) (xs : List A)
    → Member x xs
    → test x ≡ true
    → Member x (keep test xs)
unfolding keep
Member-keep test x [] m t = absurd m
Member-keep test x (y ∷ ys) (inl e) t = rw (ap test (sym e) ∙ t) (inl e)
Member-keep test x (y ∷ ys) (inr m) t = elim (Bool-cases (test y)) [
  | inl yes_ ↦ rw yes_ (inr (Member-keep test x ys m t))
  | inr no_ ↦ rw no_ (Member-keep test x ys m t)
]

Member-drop_last :
    {A : Type 0} (k : ℕ) (xs : List A) (x : A)
    → k < length xs + 1
    → Member x (drop k (xs ++ x ∷ []))
Member-drop_last zero [] x h = inl refl
Member-drop_last zero (y ∷ ys) x h = inr (Member-drop_last zero ys x (omega arith))
Member-drop_last (suc k) [] x h = absurd (omega (arith, h))
Member-drop_last (suc k) (y ∷ ys) x h = Member-drop_last k ys x (omega (arith, h))

Ascending-above :
    (lo : ℕ) (rows : List Row) (hi : ℕ) (a : Row)
    → Ascending lo rows hi
    → Member a rows
    → lo < a.sequence
Ascending-above lo [] hi a h m = absurd m
Ascending-above lo (r ∷ rs) hi a h (inl e) = rw e h.0
Ascending-above lo (r ∷ rs) hi a h (inr m) =
    omega (arith, h.0, Ascending-above r.sequence rs hi a h.1 m)

-- A sequence number stands in one pending row.
Ascending-unique :
    (lo : ℕ) (rows : List Row) (hi : ℕ) (a b : Row)
    → Ascending lo rows hi
    → Member a rows
    → Member b rows
    → a.sequence ≡ b.sequence
    → a ≡ b
Ascending-unique lo [] hi a b h m n e = absurd m
Ascending-unique lo (r ∷ rs) hi a b h (inl x) (inl y) e = x ∙ sym y
Ascending-unique lo (r ∷ rs) hi a b h (inl x) (inr n) e =
    absurd
      (omega (arith, e, Ascending-above r.sequence rs hi b h.1 n, ap (λ (t : Row). t.sequence) x))
Ascending-unique lo (r ∷ rs) hi a b h (inr m) (inl y) e =
    absurd
      (omega (arith, e, Ascending-above r.sequence rs hi a h.1 m, ap (λ (t : Row). t.sequence) y))
Ascending-unique lo (r ∷ rs) hi a b h (inr m) (inr n) e =
    Ascending-unique r.sequence rs hi a b h.1 m n e

-- A retry keeps every event, whether it returns or raises.
pub record_attempt-Survives :
    (fault : Option SqliteError) (qs : List ℕ) (last_error : Text) (delivery_uncertain : Bool)
    (r : Row) (s : Spool)
    → IsConsistent s.db
    → Member r s.db.pending
    → Survives r (record_attempt fault qs last_error delivery_uncertain s).1.db
unfolding record_attempt attempt_body
record_attempt-Survives fault qs last_error delivery_uncertain r s c m =
    let before = Survives-refl r s.db m in
    elim (sequence_tuple_cases qs) [
      | inr bad ↦ rw (bad, record_attempt) before
      | inl (v, n, _) ↦ elim (Bool-cases (is_empty last_error)) [
        | inl blank ↦ rw (v, blank, record_attempt) before
        | inr text ↦ elim (Bool-cases (is_empty qs)) [
          | inl nothing ↦ rw (v, text, nothing, record_attempt) before
          | inr more ↦
              rw (v, text, more, record_attempt)
                (classified_transaction-keeps (attempt_body qs last_error delivery_uncertain) fault
                  s (Survives r) (attempted n) before)
        ]
      ]
    ]
  where
    attempted :
        no_duplicates qs ≡ true
        → (k : ℕ) (d : Db) → attempt_body qs last_error delivery_uncertain s.db ≡ (ok k, d)
        → Survives r d
    attempted n k d h = elim (attempt_all_cases last_error delivery_uncertain qs s.db c n) [
      | inr (_, d'', run) ↦ absurd (ground (arith, run))
      | inl (_, run) ↦
          let same : attempted_on last_error delivery_uncertain qs s.db ≡ d = ground (arith, run) in
          let e = marked-SameEvent last_error delivery_uncertain qs r in
          subst (Survives r) same (
            inl (
              marked last_error delivery_uncertain qs r,
              Member-map (marked last_error delivery_uncertain qs) s.db.pending r m,
              e.event_id,
              e.payload,
            ))
    ]

-- The one row that a single move concerns.
one_record :
    (q : ℕ) (records : List Row)
    → sequences_of records ≡ q ∷ []
    → (z : Row) × (records ≡ z ∷ []) × (z.sequence ≡ q)
one_record q [] e = absurd (cc e)
one_record q (z ∷ []) e = (z, refl, ground (arith, e))
one_record q (z ∷ y ∷ zs) e = absurd (ground (arith, e))

module _ (failed_ns : ℤ) (last_error : Text) (delivery_uncertain : Bool) where
  MovesTo-Survives :
      (q : ℕ) (r : Row) (d d' : Db) (k : ℕ)
      → IsConsistent d
      → MovesTo failed_ns last_error delivery_uncertain (q ∷ []) d k d'
      → Member r d.pending
      → Survives r d'
  unfolding outside any_of dead_rows
  MovesTo-Survives q r d d' k c m h = elim (Bool-cases (r.sequence == q)) [
    | inr other ↦ inl (
      r,
      subst (Member r) (sym m.pending)
          (Member-keep (outside (q ∷ [])) r d.pending h (ground (arith, other))),
      refl,
      refl,
    )
    | inl same ↦
        let (z, one, number) = one_record q m.records m.numbers in
        let here_ =
          All-Member (λ y. Member y d.pending) z m.records m.members (rw one (inl refl)) in
        let equal : z ≡ r =
          Ascending-unique 0 d.pending d.last_sequence z r c.ordered here_ h
            (ground (arith, same, number)) in
        let x = dead_row z failed_ns last_error delivery_uncertain (suc d.last_dead_letter_id) in
        let rest : d'.dead_letter ≡ drop k (d.dead_letter ++ x ∷ []) = rw one at m.dead in
        inr (
          x,
          subst (Member x) (sym rest) (Member-drop_last k d.dead_letter x (newest m.newest)),
          ap (λ (t : Row). t.event_id) equal,
          ap (λ (t : Row). t.payload) equal,
        )
  ]
    where
      newest : (q ∷ [] ≡ []) ⊎ (k < length d.dead_letter + 1) → k < length d.dead_letter + 1
      newest (inl e) = absurd (cc e)
      newest (inr l) = l

  -- The move of one row keeps every event, the row's own included, whether it returns or raises.
  pub move_to_dead_letter-Survives :
      (limits : Limits) (fault : Option SqliteError) (q : ℕ) (r : Row) (s : Spool)
      → IsConsistent s.db
      → Member r s.db.pending
      → Survives r
          (move_to_dead_letter limits fault (q ∷ []) last_error failed_ns delivery_uncertain s).1.db
  unfolding move_to_dead_letter
  move_to_dead_letter-Survives limits fault q r s c m =
      let before = Survives-refl r s.db m in
      elim (sequence_tuple_cases (q ∷ [])) [
        | inr bad ↦ rw (bad, move_to_dead_letter) before
        | inl (v, n, _) ↦ elim (Bool-cases (is_empty last_error)) [
          | inl blank ↦ rw (v, blank, move_to_dead_letter) before
          | inr text ↦ elim (Bool-cases (in_sqlite_range failed_ns)) [
            | inr far ↦ rw (v, text, far, move_to_dead_letter) before
            | inl near ↦
                rw (v, text, near, move_to_dead_letter)
                  (classified_transaction-keeps
                    (move_body limits (q ∷ []) failed_ns last_error delivery_uncertain) fault s
                    (Survives r) (moved n text) before)
          ]
        ]
      ]
    where
      moved :
          no_duplicates (q ∷ []) ≡ true
          → is_empty last_error ≡ false
          → (a : ℕ × ℕ) (d : Db)
          → move_body limits (q ∷ []) failed_ns last_error delivery_uncertain s.db ≡ (ok a, d)
          → Survives r d
      moved n text a d h =
          elim (move_body_cases limits failed_ns last_error delivery_uncertain (q ∷ []) s.db c n
            text) [
              | inr (x, d1, run, _) ↦ absurd (cc (run, h))
              | inl (k, d1, run, moves, _) ↦
                  let same : d1 ≡ d = ap (λ p. p.1) (sym run ∙ h) in
                  subst (Survives r) same (MovesTo-Survives q r s.db d1 k c moves m)
            ]
