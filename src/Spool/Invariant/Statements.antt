-- ===== src/Spool/Invariant/Statements.antt =====
-- The statements on `pending` and the invariant of the database.
use mathlib.Core.List.{Mem}
use hass_questdb_writer.Prelude.{
  ℕ, suc, ◌≡◌, refl, ◌⊎◌, inl, inr, false, none, some, List, [], ◌∷◌, ◌++◌, map, length,
  length-append, any_of, arith, Option-cases, All-append, All-mono, ==_iff, is_empty, ok, err,
}
use hass_questdb_writer.Spool.Types.{NewEvent, Row, Db, Limits}
use hass_questdb_writer.Spool.Table.{
  remove_by, insert_pending, delete_pending, new_row, same_event, same_sequence, constraint,
  pending_stats_after_insert,
}
use hass_questdb_writer.Spool.Invariant.{IsConsistent, IsWithin, count_stats}
use hass_questdb_writer.Spool.Invariant.Rows.{
  Removes, remove_by-Removes, Removes-payload_bytes, Removes-All, Removes-Ascending,
  payload_bytes-append, Ascending-append,
}
use hass_questdb_writer.Spool.Invariant.Keys.{Nodup-insert, Nodup-remove}

-- The database after the INSERT of a new event.
abbrev pub inserted : NewEvent → Db → Db
inserted e d = record d {
  pending = d.pending ++ new_row e (suc d.last_sequence) ∷ [];
  last_sequence = suc d.last_sequence;
  stats = pending_stats_after_insert (length e.payload) d.stats;
}

-- An INSERT adds the row, or violates a constraint and changes nothing.
pub insert_pending_cases :
    (e : NewEvent) (d : Db)
    → ((insert_pending e d ≡ (ok tt, inserted e d))
        × (any_of (same_event e.event_id) d.pending ≡ false))
      ⊎ (insert_pending e d ≡ (err constraint, d))
unfolding insert_pending
insert_pending_cases e d = ground arith

pub inserted-IsConsistent :
    (e : NewEvent) (d : Db)
    → ¬ Mem e.event_id (map (λ r. r.event_id) d.pending ++ map (λ r. r.event_id) d.dead_letter)
    → ¬ Mem
        (suc d.last_sequence)
        (map (λ r. r.sequence) d.pending ++ map (λ r. r.original_sequence) d.dead_letter)
    → (is_empty e.event_id ≡ false) × (is_empty e.payload ≡ false)
    → IsConsistent d
    → IsConsistent (inserted e d)
inserted-IsConsistent e d fresh_id fresh_sequence content c = record {
  counted = ground (
    arith,
    c.counted,
    payload_bytes-append d.pending (new_row e (suc d.last_sequence)),
    length-append d.pending (new_row e (suc d.last_sequence) ∷ []),
  );
  ids =
      Nodup-insert (λ r. r.event_id) (λ r. r.event_id) d.pending d.dead_letter
        (new_row e (suc d.last_sequence)) fresh_id c.ids;
  sequences =
      Nodup-insert (λ r. r.sequence) (λ r. r.original_sequence) d.pending d.dead_letter
        (new_row e (suc d.last_sequence)) fresh_sequence c.sequences;
  ordered =
      Ascending-append 0 d.pending d.last_sequence (new_row e (suc d.last_sequence)) c.ordered refl;
  issued = All-mono (λ r h. omega (arith, h)) d.dead_letter c.issued;
  checked = All-append _ d.pending (new_row e (suc d.last_sequence) ∷ []) c.checked (content, tt);
}

-- The database after the DELETE of one pending row.
abbrev pub removed : List Row → Db → Db
removed rest d = record d { pending = rest; stats = some (count_stats rest d.dead_letter) }

pub removed-IsConsistent :
    {x : Row} {rest : List Row} (d : Db)
    → Removes x d.pending rest
    → IsConsistent d
    → IsConsistent (removed rest d)
removed-IsConsistent {x} {rest} d r c = record {
  counted = refl;
  ids = (Nodup-remove (λ r. r.event_id) (λ r. r.event_id) d.dead_letter r c.ids).1;
  sequences =
      (Nodup-remove (λ r. r.sequence) (λ r. r.original_sequence) d.dead_letter r c.sequences).1;
  ordered = Removes-Ascending r 0 d.last_sequence c.ordered;
  issued = c.issued;
  checked = Removes-All _ r c.checked;
}

pub removed-IsWithin :
    {x : Row} {rest : List Row} (limits : Limits) (d : Db)
    → Removes x d.pending rest
    → IsWithin limits d
    → IsWithin limits (removed rest d)
removed-IsWithin limits d r w =
    let size = Removes-payload_bytes r in
    record {
      rows = omega (arith, size, w.rows);
      bytes = omega (arith, size, w.bytes);
      dead_rows = w.dead_rows;
      dead_bytes = w.dead_bytes;
      payloads = Removes-All _ r w.payloads;
    }

-- A DELETE takes the one row with the sequence number; where there is none it changes nothing.
pub delete_pending_cases :
    (q : ℕ) (d : Db)
    → d.stats ≡ some (count_stats d.pending d.dead_letter)
    → ((delete_pending q d ≡ (ok 0, d)) × (remove_by (same_sequence q) d.pending ≡ none))
      ⊎ ((x : Row) × (rest : List Row) × (Removes x d.pending rest)
          × (x.sequence ≡ q)
          × (delete_pending q d ≡ (ok 1, removed rest d)))
unfolding delete_pending
delete_pending_cases q d c = elim (Option-cases (remove_by (same_sequence q) d.pending)) [
  | inl e ↦ inl (rw (e, delete_pending), e)
  | inr ((x, rest), e) ↦
      let (found, r) = remove_by-Removes (same_sequence q) d.pending x rest e in
      inr (x, rest, r, (==_iff x.sequence q).0 found, ground (arith, e, c, Removes-payload_bytes r))
]
