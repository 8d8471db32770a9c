-- ===== src/Spool/Enqueue/Inserts.antt =====
-- What the INSERTs of one batch do: new rows with consecutive sequence numbers, in order.
use mathlib.Core.List.{append_assoc, append-nil}
use hass_questdb_writer.Prelude.{
  ℕ, suc, ◌+◌, ◌≡◌, refl, sym, false, List, [], ◌∷◌, ◌++◌, map, length, any_of, any_of-append,
  arith, All, All-mono, text_eq, text_eq_iff, is_empty, ok,
}
use hass_questdb_writer.Spool.Types.{NewEvent, Row, Db}
use hass_questdb_writer.Spool.Table.{insert_pending, new_row, same_event, same_dead_event}
use hass_questdb_writer.Spool.Enqueue.{insert_all, added_bytes}
use hass_questdb_writer.Spool.Invariant.{payload_bytes, IsConsistent}
use hass_questdb_writer.Spool.Invariant.Rows.{Ascending-All}
use hass_questdb_writer.Spool.Invariant.Keys.{not_mem_of_any_of, not_mem_of_All_le, not_mem-append}
use hass_questdb_writer.Spool.Invariant.Statements.{inserted, inserted-IsConsistent}

-- The rows of a batch whose first one gets the number after `q`.
unfoldable pub new_rows : ℕ → List NewEvent → List Row
new_rows q [] = []
new_rows q (e ∷ es) = new_row e (suc q) ∷ new_rows (suc q) es

-- The database after all INSERTs.
unfoldable pub all_inserted : List NewEvent → Db → Db
all_inserted [] d = d
all_inserted (e ∷ es) d = all_inserted es (inserted e d)

-- No event ID stands in two events.
abbrev pub Distinct : List NewEvent → Type 0
Distinct [] = Unit
Distinct (e ∷ es) = All (λ p. text_eq e.event_id p.event_id ≡ false) es × Distinct es

-- An event that the schema accepts, with an ID that is in neither table.
pub record IsFresh (d : Db) (e : NewEvent) : Type 0 where
  pub has_id : is_empty e.event_id ≡ false
  pub has_payload : is_empty e.payload ≡ false
  pub not_pending : any_of (same_event e.event_id) d.pending ≡ false
  pub not_dead : any_of (same_dead_event e.event_id) d.dead_letter ≡ false

IsFresh-inserted :
    (e p : NewEvent) (d : Db)
    → text_eq e.event_id p.event_id ≡ false
    → IsFresh d p
    → IsFresh (inserted e d) p
unfolding any_of
IsFresh-inserted e p d other f = record {
  has_id = f.has_id;
  has_payload = f.has_payload;
  not_pending = ground (
    arith,
    f.not_pending,
    any_of-append (same_event p.event_id) d.pending (new_row e (suc d.last_sequence) ∷ []),
  );
  not_dead = f.not_dead;
}

pub All-IsFresh-inserted :
    (e : NewEvent) (es : List NewEvent) (d : Db)
    → All (λ p. text_eq e.event_id p.event_id ≡ false) es
    → All (IsFresh d) es
    → All (IsFresh (inserted e d)) es
All-IsFresh-inserted e [] d o f = tt
All-IsFresh-inserted e (p ∷ ps) d o f =
    (IsFresh-inserted e p d o.0 f.0, All-IsFresh-inserted e ps d o.1 f.1)

insert_pending_fresh :
    (e : NewEvent) (d : Db) → IsFresh d e → insert_pending e d ≡ (ok tt, inserted e d)
unfolding insert_pending
insert_pending_fresh e d f = rw (f.has_id, f.has_payload, f.not_pending)

-- Distinct fresh events violate no constraint.
pub insert_all_fresh :
    (es : List NewEvent) (d : Db)
    → All (IsFresh d) es
    → Distinct es
    → insert_all es d ≡ (ok tt, all_inserted es d)
unfolding insert_all all_inserted
insert_all_fresh [] d f n = refl
insert_all_fresh (e ∷ es) d f n =
    rw (insert_pending_fresh e d f.0)
      (insert_all_fresh es (inserted e d) (All-IsFresh-inserted e es d n.0 f.1) n.1)

inserted-keeps :
    (e : NewEvent) (d : Db) → IsFresh d e → IsConsistent d → IsConsistent (inserted e d)
inserted-keeps e d f c =
    inserted-IsConsistent e d
      (not_mem-append (map (λ r. r.event_id) d.pending) (map (λ r. r.event_id) d.dead_letter)
        (not_mem_of_any_of (λ r. r.event_id) e.event_id (same_event e.event_id)
          (λ x h. (text_eq_iff x.event_id e.event_id).1 h) d.pending f.not_pending)
        (not_mem_of_any_of (λ r. r.event_id) e.event_id (same_dead_event e.event_id)
          (λ x h. (text_eq_iff x.event_id e.event_id).1 h) d.dead_letter f.not_dead))
      (not_mem-append (map (λ r. r.sequence) d.pending)
        (map (λ r. r.original_sequence) d.dead_letter)
        (not_mem_of_All_le (λ r. r.sequence) d.last_sequence d.pending
          (All-mono (λ r h. h.1) d.pending (Ascending-All 0 d.pending d.last_sequence c.ordered)))
        (not_mem_of_All_le (λ r. r.original_sequence) d.last_sequence d.dead_letter c.issued))
      (f.has_id, f.has_payload) c

pub all_inserted-IsConsistent :
    (es : List NewEvent) (d : Db)
    → All (IsFresh d) es
    → Distinct es
    → IsConsistent d
    → IsConsistent (all_inserted es d)
unfolding all_inserted
all_inserted-IsConsistent [] d f n c = c
all_inserted-IsConsistent (e ∷ es) d f n c =
    all_inserted-IsConsistent es (inserted e d) (All-IsFresh-inserted e es d n.0 f.1) n.1
      (inserted-keeps e d f.0 c)

-- The new rows stand behind the old ones, and the dead letters are as they were.
pub all_inserted_tables :
    (es : List NewEvent) (d : Db)
    → ((all_inserted es d).pending ≡ d.pending ++ new_rows d.last_sequence es)
      × ((all_inserted es d).dead_letter ≡ d.dead_letter)
      × ((all_inserted es d).last_sequence ≡ d.last_sequence + length es)
      × ((all_inserted es d).last_dead_letter_id ≡ d.last_dead_letter_id)
unfolding all_inserted new_rows
all_inserted_tables [] d = (sym (append-nil d.pending), refl, omega arith, refl)
all_inserted_tables (e ∷ es) d =
    let ih = all_inserted_tables es (inserted e d) in
    (rw ih.0 (append_assoc d.pending _ _), ih.1, omega (arith, ih.2), ih.3)

pub payload_bytes-new_rows :
    (q : ℕ) (es : List NewEvent) (rows : List Row)
    → (payload_bytes (rows ++ new_rows q es) ≡ payload_bytes rows + added_bytes es)
      × (length (rows ++ new_rows q es) ≡ length rows + length es)
unfolding payload_bytes new_rows added_bytes
payload_bytes-new_rows q [] [] = (refl, refl)
payload_bytes-new_rows q (e ∷ es) [] = omega (arith, payload_bytes-new_rows (suc q) es [])
payload_bytes-new_rows q es (r ∷ rs) = omega (arith, payload_bytes-new_rows q es rs)
