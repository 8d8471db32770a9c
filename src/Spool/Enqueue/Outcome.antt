-- ===== src/Spool/Enqueue/Outcome.antt =====
-- What `enqueue_many` returns and leaves behind.
use hass_questdb_writer.Prelude.{
  ◌+◌, ◌≡◌, refl, ◌⊎◌, inl, inr, Bool, true, ◌&&◌, Option, List, [], ◌∷◌, length, arith, All,
  All-of_Member, Member, All-Member, Result-cases, leb, if◌then◌else◌, ok, err, Bool-cases,
  is_empty,
}
use hass_questdb_writer.Spool.Types.{Error, SqliteError, spool_full, NewEvent, Db, Limits, Spool}
use hass_questdb_writer.Spool.Table.{stats_row}
use hass_questdb_writer.Spool.Transaction.{validate_events}
use hass_questdb_writer.Spool.Transaction.Outcome.{
  classified_transaction-ok, classified_transaction-err,
}
use hass_questdb_writer.Spool.Enqueue.{
  distinct, new_events, added_bytes, insert_within, enqueue_body, enqueue_many,
}
use hass_questdb_writer.Spool.Enqueue.Inserts.{Distinct, IsFresh, all_inserted, insert_all_fresh}
use hass_questdb_writer.Spool.Enqueue.Selection.{
  IsValid, validate_events-IsValid, distinct-Selected, Selected, new_events-IsChosen, Stored,
}
use hass_questdb_writer.Spool.Invariant.{payload_bytes, IsConsistent}

-- Whether new events fit the two limits on pending rows.
abbrev pub has_room : Limits → Db → List NewEvent → Bool
has_room limits d fresh =
    leb (length d.pending + length fresh) limits.max_pending_rows
    && leb (payload_bytes d.pending + added_bytes fresh) limits.max_pending_bytes

-- The limits decide alone: what fits is inserted whole, and what does not changes nothing.
pub insert_within_lem :
    (limits : Limits) (fresh : List NewEvent) (d : Db)
    → IsConsistent d
    → All (IsFresh d) fresh
    → Distinct fresh
    → insert_within limits fresh d ≡ (
        if has_room limits d fresh
        then (ok (length fresh), all_inserted fresh d)
        else (err spool_full, d))
unfolding insert_within stats_row
insert_within_lem limits fresh d c f n = ground (arith, c.counted, insert_all_fresh fresh d f n)

-- What a batch leaves behind where it succeeds.
pub record IsAccepted (limits : Limits) (events : List NewEvent) (d : Db) (fresh : List NewEvent)
    : Type 0 where
  pub all_fresh : All (IsFresh d) fresh
  pub distinct : Distinct fresh
  pub valid : All (IsValid limits) fresh
  pub room : (has_room limits d fresh ≡ true) ⊎ (fresh ≡ [])
  pub covers : (e : NewEvent) → Member e events → Stored d e ⊎ Member e fresh

enqueue_body_cases :
    (limits : Limits) (events values : List NewEvent) (d : Db)
    → IsConsistent d
    → Selected limits [] events values
    → ((fresh : List NewEvent) × IsAccepted limits events d fresh
        × (enqueue_body limits values d ≡ (ok (length fresh), all_inserted fresh d)))
      ⊎ ((x : Error) × (enqueue_body limits values d ≡ (err x, d)))
unfolding enqueue_body
enqueue_body_cases limits events values d c s = elim (Result-cases (new_events d values)) [
  | inr (x, e) ↦ inr (x, rw (e, enqueue_body))
  | inl (fresh, e) ↦
      let chosen = new_events-IsChosen limits d values fresh s.valid s.distinct e in
      let within = insert_within_lem limits fresh d c chosen.all_fresh chosen.distinct in
      elim (Bool-cases (has_room limits d fresh)) [
        | inl room ↦ inl (
          fresh,
          record {
            all_fresh = chosen.all_fresh;
            distinct = chosen.distinct;
            valid =
                All-of_Member (IsValid limits) fresh
                  (λ p m. All-Member (IsValid limits) p values s.valid (chosen.members p m));
            room = inl room;
            covers = λ p m. chosen.covers p (s.covers p m);
          },
          rw (e, enqueue_body) (rw room at within),
        )
        | inr full ↦ inr (spool_full, rw (e, enqueue_body) (rw full at within))
      ]
]

no-Member : (events : List NewEvent) (p : NewEvent) → is_empty events ≡ true → ¬ Member p events
no-Member [] p h = λ m. m
no-Member (e ∷ es) p h = λ m. cc

-- Every call inserts the events that are new, whole, or raises and changes nothing.
pub enqueue_many_cases :
    (limits : Limits) (fault : Option SqliteError) (events : List NewEvent) (s : Spool)
    → IsConsistent s.db
    → ((fresh : List NewEvent) × IsAccepted limits events s.db fresh
        × (enqueue_many limits fault events s
            ≡ (ok (length fresh), record s { db = all_inserted fresh s.db })))
      ⊎ ((x : Error) × (enqueue_many limits fault events s ≡ (err x, s)))
unfolding enqueue_many all_inserted
enqueue_many_cases limits fault events s c = elim (Result-cases (validate_events limits events)) [
  | inr (x, e) ↦ inr (x, rw (e, enqueue_many))
  | inl (_, e) ↦ elim (Bool-cases (is_empty events)) [
    | inl empty ↦ inl (
      [],
      record {
        all_fresh = tt;
        distinct = tt;
        valid = tt;
        room = inr refl;
        covers = λ p m. absurd (no-Member events p empty m);
      },
      rw (e, empty, enqueue_many),
    )
    | inr more ↦ elim (Result-cases (distinct [] events)) [
      | inr (x, f) ↦ inr (x, rw (e, more, f, enqueue_many))
      | inl (values, f) ↦
          elim (enqueue_body_cases limits events values s.db c (
            distinct-Selected limits [] events values (validate_events-IsValid limits events e) tt
              tt f)) [
                | inr (x, b) ↦
                    let (y, t) =
                      classified_transaction-err (enqueue_body limits values) fault s x s.db b in
                    inr (y, rw (e, more, f, enqueue_many) t)
                | inl (fresh, a, b) ↦
                    elim (classified_transaction-ok (enqueue_body limits values) fault s
                      (length fresh) (all_inserted fresh s.db) b) [
                        | inl t ↦ inl (fresh, a, rw (e, more, f, enqueue_many) t)
                        | inr (y, t) ↦ inr (y, rw (e, more, f, enqueue_many) t)
                      ]
              ]
    ]
  ]
]
