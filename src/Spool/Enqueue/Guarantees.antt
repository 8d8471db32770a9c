-- ===== src/Spool/Enqueue/Guarantees.antt =====
-- `enqueue_many` as a whole, for its callers.
use mathlib.Core.Path.{subst}
use hass_questdb_writer.Prelude.{
  ℕ, ◌≤◌, ◌≡◌, refl, sym, ap, ◌∙◌, ◌⊎◌, inl, inr, true, false, Option, none, List, [], ◌∷◌, ◌++◌,
  length, arith, All, All-append, All-of_Member, All-Member, if◌then◌else◌, ok, err, Result-cases,
  Bool-cases, is_empty, text_eq_refl, eq_ℤ_iff,
}
use hass_questdb_writer.Spool.Types.{Error, SqliteError, spool_full, NewEvent, Db, Limits, Spool}
use hass_questdb_writer.Spool.Enqueue.{
  new_events, distinct, added_bytes, enqueue_many, enqueue_body,
}
use hass_questdb_writer.Spool.Enqueue.Inserts.{
  all_inserted, all_inserted-IsConsistent, all_inserted_tables, new_rows, payload_bytes-new_rows,
}
use hass_questdb_writer.Spool.Enqueue.Selection.{
  IsValid, new_events-IsChosen, Stored, validate_events-IsValid, distinct-Selected,
}
use hass_questdb_writer.Spool.Transaction.{transaction, classified_transaction, validate_events}
use hass_questdb_writer.Spool.Enqueue.Stored.{Stored-all_inserted, Stored-all_inserted_self}
use hass_questdb_writer.Spool.Enqueue.Outcome.{
  has_room, IsAccepted, insert_within_lem, enqueue_many_cases,
}
use hass_questdb_writer.Spool.Invariant.{IsConsistent, IsWithin}

new_rows-All :
    (limits : Limits) (q : ℕ) (es : List NewEvent)
    → All (IsValid limits) es
    → All (λ r. length r.payload ≤ limits.max_event_bytes) (new_rows q es)
unfolding new_rows
new_rows-All limits q [] v = tt
new_rows-All limits q (e ∷ es) v = (v.0.fits, new_rows-All limits _ es v.1)

-- The accepted events stay within the limits.
all_inserted-IsWithin :
    (limits : Limits) (events fresh : List NewEvent) (d : Db)
    → IsAccepted limits events d fresh
    → IsWithin limits d
    → IsWithin limits (all_inserted fresh d)
all_inserted-IsWithin limits events fresh d a w =
    let (rows, dead, _, _) = all_inserted_tables fresh d in
    let size = payload_bytes-new_rows d.last_sequence fresh d.pending in
    elim a.room [
      | inl room ↦ record {
        rows = rw rows (ground (arith, size, room));
        bytes = rw rows (ground (arith, size, room));
        dead_rows = rw dead w.dead_rows;
        dead_bytes = rw dead w.dead_bytes;
        payloads = rw rows (
            All-append _ d.pending (new_rows d.last_sequence fresh) w.payloads
              (new_rows-All limits d.last_sequence fresh a.valid));
      }
      | inr none_ ↦ rw none_ (unfold all_inserted in w)
    ]

accepted-Stored :
    (limits : Limits) (events fresh : List NewEvent) (d : Db)
    → IsAccepted limits events d fresh
    → All (Stored (all_inserted fresh d)) events
accepted-Stored limits events fresh d a =
    All-of_Member (Stored (all_inserted fresh d)) events λ p m. elim (a.covers p m) [
      | inl old ↦ Stored-all_inserted fresh p d a.all_fresh a.distinct old
      | inr new ↦ Stored-all_inserted_self fresh p d a.all_fresh a.distinct new
    ]

-- Every call keeps exact counters, unique IDs and sequence numbers, the order of the queue and
-- all capacity limits, whether it returns or raises.
pub enqueue_many-IsConsistent :
    (limits : Limits) (fault : Option SqliteError) (events : List NewEvent) (s : Spool)
    → IsConsistent s.db
    → IsWithin limits s.db
    → IsConsistent (enqueue_many limits fault events s).1.db
      × IsWithin limits (enqueue_many limits fault events s).1.db
enqueue_many-IsConsistent limits fault events s c w =
    elim (enqueue_many_cases limits fault events s c) [
      | inr (x, e) ↦ rw e (c, w)
      | inl (fresh, a, e) ↦ rw e (
        all_inserted-IsConsistent fresh s.db a.all_fresh a.distinct c,
        all_inserted-IsWithin limits events fresh s.db a w,
      )
    ]

abbrev pub InsertedWhole : Limits → Option SqliteError → List NewEvent → Spool → Type 0
InsertedWhole limits fault events s =
    (fresh : List NewEvent) × (s' : Spool) × (enqueue_many limits fault events s
      ≡ (ok (length fresh), s'))
    × (s'.db.pending ≡ s.db.pending ++ new_rows s.db.last_sequence fresh)
    × (s'.db.dead_letter ≡ s.db.dead_letter)
    × All (Stored s'.db) events

-- A call either inserts events whole: new rows stand behind the old ones, with the next sequence
-- numbers, the dead letters are as they were, and every event of the batch is stored with its
-- content; the number of new rows is returned. Or it raises, and nothing has changed.
pub enqueue_many_lem :
    (limits : Limits) (fault : Option SqliteError) (events : List NewEvent) (s : Spool)
    → IsConsistent s.db
    → InsertedWhole limits fault events s
      ⊎ ((x : Error) × (enqueue_many limits fault events s ≡ (err x, s)))
enqueue_many_lem limits fault events s c = elim (enqueue_many_cases limits fault events s c) [
  | inr failed ↦ inr failed
  | inl (fresh, a, e) ↦
      let (rows, dead, _, _) = all_inserted_tables fresh s.db in
      inl (
        fresh,
        record s { db = all_inserted fresh s.db },
        e,
        rows,
        dead,
        accepted-Stored limits events fresh s.db a,
      )
]

-- On an open spool whose storage works, a batch of valid events without contradictions is inserted
-- whole if its new events fit both limits on pending rows, and else raises and changes nothing.
pub enqueue_many-room :
    (limits : Limits) (events values fresh : List NewEvent) (s : Spool)
    → IsConsistent s.db
    → s.is_open ≡ true
    → is_empty events ≡ false
    → validate_events limits events ≡ ok tt
    → distinct [] events ≡ ok values
    → new_events s.db values ≡ ok fresh
    → enqueue_many limits none events s ≡ (
        if has_room limits s.db fresh
        then (ok (length fresh), record s { db = all_inserted fresh s.db })
        else (err spool_full, s))
unfolding enqueue_many classified_transaction transaction enqueue_body
enqueue_many-room limits events values fresh s c open_ more valid one new =
    let selected =
      distinct-Selected limits [] events values (validate_events-IsValid limits events valid) tt tt
        one in
    let chosen =
      new_events-IsChosen limits s.db values fresh selected.valid selected.distinct new in
    let within = insert_within_lem limits fresh s.db c chosen.all_fresh chosen.distinct in
    ground (arith, valid, more, one, open_, new, within)

-- Stored events are no new events.
new_events-Stored :
    (d : Db) (values : List NewEvent) → All (Stored d) values → new_events d values ≡ ok []
unfolding new_events
new_events-Stored d [] s = refl
new_events-Stored d (e ∷ es) s = ground (
  arith,
  s.0,
  text_eq_refl e.payload,
  eq_ℤ_iff e.created_ns e.created_ns,
  new_events-Stored d es s.1,
)

enqueue_body-Stored :
    (limits : Limits) (values : List NewEvent) (d : Db)
    → IsConsistent d
    → IsWithin limits d
    → All (Stored d) values
    → enqueue_body limits values d ≡ (ok 0, d)
unfolding enqueue_body all_inserted added_bytes
enqueue_body-Stored limits values d c w s =
    rw (new_events-Stored d values s, enqueue_body)
      (insert_within_lem limits [] d c tt tt ∙ ground (arith, w.rows, w.bytes))

-- What a call that returned has checked.
Accepts : Limits → List NewEvent → Type 0
Accepts limits events =
    (validate_events limits events ≡ ok tt)
    × ((is_empty events ≡ true) ⊎ ((values : List NewEvent) × (distinct [] events ≡ ok values)))

enqueue_many-Accepts :
    (limits : Limits) (fault : Option SqliteError) (events : List NewEvent) (s : Spool) (n : ℕ)
    (s' : Spool)
    → enqueue_many limits fault events s ≡ (ok n, s')
    → Accepts limits events
unfolding enqueue_many Accepts
enqueue_many-Accepts limits fault events s n s' h =
    elim (Result-cases (validate_events limits events)) [
      | inr (x, e) ↦ absurd (ground (arith, e))
      | inl (_, e) ↦ elim (Bool-cases (is_empty events)) [
        | inl empty ↦ (e, inl empty)
        | inr more ↦ elim (Result-cases (distinct [] events)) [
          | inr (x, f) ↦ absurd (ground (arith, e, more, f))
          | inl (values, f) ↦ (e, inr (values, f))
        ]
      ]
    ]

enqueue_many-Stored :
    (limits : Limits) (events : List NewEvent) (s : Spool)
    → IsConsistent s.db
    → IsWithin limits s.db
    → Accepts limits events
    → s.is_open ≡ true
    → All (Stored s.db) events
    → enqueue_many limits none events s ≡ (ok 0, s)
unfolding enqueue_many Accepts classified_transaction transaction
enqueue_many-Stored limits events s c w a open_ st = elim a.1 [
  | inl empty ↦ ground (arith, a.0, empty)
  | inr (values, f) ↦
      let chosen =
        distinct-Selected limits [] events values (validate_events-IsValid limits events a.0) tt tt
          f in
      let all_stored = All-of_Member (Stored s.db) values λ p m. elim (chosen.members p m) [
        | inl k ↦ absurd k
        | inr k ↦ All-Member (Stored s.db) p events st k
      ] in
      ground (arith, a.0, f, open_, enqueue_body-Stored limits values s.db c w all_stored)
]

enqueue_many-Stored_after :
    (limits : Limits) (fault : Option SqliteError) (events : List NewEvent) (s : Spool) (n : ℕ)
    (s' : Spool)
    → IsConsistent s.db
    → enqueue_many limits fault events s ≡ (ok n, s')
    → All (Stored s'.db) events
enqueue_many-Stored_after limits fault events s n s' c h =
    elim (enqueue_many_lem limits fault events s c) [
      | inr (x, e) ↦ absurd (cc (e, h))
      | inl (fresh, s1, e, _, _, stored) ↦
          let same : s1 ≡ s' = ap (λ p. p.1) (sym e ∙ h) in
          subst (λ t. All (Stored t.db) events) same stored
    ]

-- A call that returned can be repeated: the second call inserts nothing and changes nothing.
pub enqueue_many_again :
    (limits : Limits) (fault : Option SqliteError) (events : List NewEvent) (s : Spool) (n : ℕ)
    (s' : Spool)
    → IsConsistent s.db
    → IsWithin limits s.db
    → enqueue_many limits fault events s ≡ (ok n, s')
    → s'.is_open ≡ true
    → enqueue_many limits none events s' ≡ (ok 0, s')
enqueue_many_again limits fault events s n s' c w h open_ =
    let kept = enqueue_many-IsConsistent limits fault events s c w in
    let after : (enqueue_many limits fault events s).1 ≡ s' = ap (λ t. t.1) h in
    let stored = enqueue_many-Stored_after limits fault events s n s' c h in
    enqueue_many-Stored limits events s' (subst (λ t. IsConsistent t.db) after kept.0)
      (subst (λ t. IsWithin limits t.db) after kept.1)
      (enqueue_many-Accepts limits fault events s n s' h) open_ stored
