-- ===== src/Spool/Invariant/Updates.antt =====
-- UPDATEs that leave keys and payloads alone.
use hass_questdb_writer.Prelude.{ℕ, ◌≤◌, ◌≡◌, refl, ap, List, [], ◌∷◌, map, length, arith, All, ◌∙◌}
use hass_questdb_writer.Spool.Types.{Row, Db, Limits}
use hass_questdb_writer.Spool.Invariant.{
  payload_bytes, Ascending, IsConsistent, IsWithin, HasContent,
}

-- What an UPDATE of delivery metadata leaves as it was.
pub record SameEvent (r r' : Row) : Type 0 where
  pub sequence : r'.sequence ≡ r.sequence
  pub event_id : r'.event_id ≡ r.event_id
  pub payload : r'.payload ≡ r.payload
  pub created_ns : r'.created_ns ≡ r.created_ns

module _ (f : Row → Row) (same : (r : Row) → SameEvent r (f r)) where
  update_sums :
      (rows : List Row)
      → (length (map f rows) ≡ length rows) × (payload_bytes (map f rows) ≡ payload_bytes rows)
  unfolding payload_bytes
  update_sums [] = (refl, refl)
  update_sums (r ∷ rs) =
      let ih = update_sums rs in
      (omega (arith, ih.0), omega (arith, ih.1, ap length (same r).payload))

  update_key :
      {K : Type 0} (key : Row → K)
      → ((r : Row) → key (f r) ≡ key r)
      → (rows : List Row) → map key (map f rows) ≡ map key rows
  update_key key h [] = refl
  update_key key h (r ∷ rs) = cc (h r, update_key key h rs)

  update-Ascending :
      (lo : ℕ) (rows : List Row) (hi : ℕ) → Ascending lo rows hi → Ascending lo (map f rows) hi
  update-Ascending lo [] hi a = a
  update-Ascending lo (r ∷ rs) hi a = (
    omega (arith, a.0, (same r).sequence),
    rw (same r).sequence (update-Ascending r.sequence rs hi a.1),
  )

  update-All :
      (n : ℕ) (rows : List Row)
      → All (λ r. length r.payload ≤ n) rows
      → All (λ r. length r.payload ≤ n) (map f rows)
  update-All n [] h = tt
  update-All n (r ∷ rs) h = (rw (same r).payload h.0, update-All n rs h.1)

  update-checked : (rows : List Row) → All HasContent rows → All HasContent (map f rows)
  update-checked [] h = tt
  update-checked (r ∷ rs) h =
      ((rw (same r).event_id h.0.0, rw (same r).payload h.0.1), update-checked rs h.1)

  pub update-IsConsistent :
      (d : Db) → IsConsistent d → IsConsistent (record d { pending = map f d.pending })
  update-IsConsistent d c = record {
    counted = c.counted ∙ ground (arith, update_sums d.pending);
    ids = rw (update_key (λ r. r.event_id) (λ r. (same r).event_id) d.pending) c.ids;
    sequences = rw (update_key (λ r. r.sequence) (λ r. (same r).sequence) d.pending) c.sequences;
    ordered = update-Ascending 0 d.pending d.last_sequence c.ordered;
    issued = c.issued;
    checked = update-checked d.pending c.checked;
  }

  pub update-IsWithin :
      (limits : Limits) (d : Db)
      → IsWithin limits d
      → IsWithin limits (record d { pending = map f d.pending })
  update-IsWithin limits d w = record {
    rows = omega (arith, w.rows, update_sums d.pending);
    bytes = omega (arith, w.bytes, update_sums d.pending);
    dead_rows = w.dead_rows;
    dead_bytes = w.dead_bytes;
    payloads = update-All limits.max_event_bytes d.pending w.payloads;
  }
