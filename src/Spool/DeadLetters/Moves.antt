-- ===== src/Spool/DeadLetters/Moves.antt =====
-- One round of the outer loop of `move_to_dead_letter`: `move_one`.
use mathlib.Core.Path.{subst}
use hass_questdb_writer.Prelude.{
  ℕ, suc, ◌+◌, ◌≤◌, ◌<◌, ◌≡◌, refl, sym, ap, ◌∙◌, ◌⊎◌, inl, inr, Bool, true, false, some, List, [],
  ◌∷◌, ◌++◌, map, length, length-append, drop, keep, arith, All-append, ==_iff, ok, err, is_empty,
  ℤ, Text, text_eq_iff,
}
use hass_questdb_writer.Spool.Types.{dead_letter_full, Row, DeadRow, Db, Limits}
use hass_questdb_writer.Spool.Table.{
  dead_row, insert_dead_letter, delete_pending, same_original, same_dead_event,
  dead_letter_stats_after_insert,
}
use hass_questdb_writer.Spool.DeadLetters.{Progress, move_one, one_moved}
use hass_questdb_writer.Spool.DeadLetters.Room.{Counts, fits, with_dead, make_room_cases}
use hass_questdb_writer.Spool.Deliver.Marks.{
  other_than, Removes-keep, remove_by-eq-none, Removes-any_of,
}
use hass_questdb_writer.Spool.Invariant.{IsConsistent, IsWithin, count_stats}
use hass_questdb_writer.Spool.Invariant.Rows.{
  Removes, Removes-payload_bytes, Removes-at, Removes-All, Removes-Ascending, Ascending-All,
  dead_payload_bytes-append,
}
use hass_questdb_writer.Spool.Invariant.Keys.{
  any_of_of_not_mem, not_mem_right, Nodup-remove, Nodup-move,
}
use hass_questdb_writer.Spool.Invariant.Statements.{delete_pending_cases}

module _ (r : Row) (failed_ns : ℤ) (last_error : Text) (delivery_uncertain : Bool) where
  abbrev pub dead_of : ℕ → DeadRow
  dead_of id = dead_row r failed_ns last_error delivery_uncertain id

  -- The database between the INSERT and the DELETE.
  abbrev buried : Db → Db
  buried d = record d {
    dead_letter = d.dead_letter ++ dead_of (suc d.last_dead_letter_id) ∷ [];
    last_dead_letter_id = suc d.last_dead_letter_id;
    stats = dead_letter_stats_after_insert (length r.payload) d.stats;
  }

  buried_counted :
      (d : Db)
      → IsConsistent d
      → (buried d).stats ≡ some (count_stats (buried d).pending (buried d).dead_letter)
  buried_counted d c = ground (
    arith,
    c.counted,
    dead_payload_bytes-append d.dead_letter (dead_of (suc d.last_dead_letter_id)),
    length-append d.dead_letter (dead_of (suc d.last_dead_letter_id) ∷ []),
  )

  -- No dead letter has the ID or the number of a pending row, so the INSERT violates no constraint.
  insert_dead_letter_pending :
      (d : Db) (rest : List Row)
      → IsConsistent d
      → Removes r d.pending rest
      → is_empty last_error ≡ false
      → insert_dead_letter r failed_ns last_error delivery_uncertain d ≡ (ok tt, buried d)
  unfolding insert_dead_letter
  insert_dead_letter_pending d rest c v t =
      let content =
        Removes-at (λ x. (is_empty x.event_id ≡ false) × (is_empty x.payload ≡ false)) v
          c.checked in
      let number =
        any_of_of_not_mem (λ x. x.original_sequence) r.sequence (same_original r.sequence)
          (λ x h. sym ((==_iff x.original_sequence r.sequence).0 h)) d.dead_letter
          (not_mem_right (map (λ x. x.sequence) rest) _
            (Nodup-remove (λ x. x.sequence) (λ x. x.original_sequence) d.dead_letter v
              c.sequences).0) in
      let event =
        any_of_of_not_mem (λ x. x.event_id) r.event_id (same_dead_event r.event_id)
          (λ x h. sym ((text_eq_iff x.event_id r.event_id).0 h)) d.dead_letter
          (not_mem_right (map (λ x. x.event_id) rest) _
            (Nodup-remove (λ x. x.event_id) (λ x. x.event_id) d.dead_letter v c.ids).0) in
      rw (content.0, content.1, t, number, event)

  -- The database after the move of the row.
  abbrev pub moved_to_dead : List Row → Db → Db
  moved_to_dead rest d = record d {
    pending = rest;
    dead_letter = d.dead_letter ++ dead_of (suc d.last_dead_letter_id) ∷ [];
    last_dead_letter_id = suc d.last_dead_letter_id;
    stats = some (count_stats rest (d.dead_letter ++ dead_of (suc d.last_dead_letter_id) ∷ []));
  }

  moved-IsConsistent :
      (d : Db) (rest : List Row)
      → IsConsistent d
      → Removes r d.pending rest
      → IsConsistent (moved_to_dead rest d)
  moved-IsConsistent d rest c v = record {
    counted = refl;
    ids =
        Nodup-move (λ x. x.event_id) (λ x. x.event_id) d.dead_letter
          (dead_of (suc d.last_dead_letter_id)) refl v c.ids;
    sequences =
        Nodup-move (λ x. x.sequence) (λ x. x.original_sequence) d.dead_letter
          (dead_of (suc d.last_dead_letter_id)) refl v c.sequences;
    ordered = Removes-Ascending v 0 d.last_sequence c.ordered;
    issued = All-append _ d.dead_letter (dead_of (suc d.last_dead_letter_id) ∷ []) c.issued (
      (Removes-at (λ x. (0 < x.sequence) × (x.sequence ≤ d.last_sequence)) v
          (Ascending-All 0 d.pending d.last_sequence c.ordered)).1,
      tt,
    );
    checked = Removes-All _ v c.checked;
  }

  delete_buried :
      (d : Db) (rest : List Row)
      → IsConsistent d
      → Removes r d.pending rest
      → delete_pending r.sequence (buried d) ≡ (ok 1, moved_to_dead rest d)
  delete_buried d rest c v =
      elim (delete_pending_cases r.sequence (buried d) (buried_counted d c)) [
        | inl (run, gone) ↦
            absurd (cc (remove_by-eq-none r.sequence d.pending gone, Removes-any_of v))
        | inr (x, rest', v', same, run) ↦
            let one : rest' ≡ rest =
              subst (λ q. rest' ≡ keep (other_than q) d.pending) same
                (Removes-keep 0 d.last_sequence v' c.ordered)
              ∙ sym (Removes-keep 0 d.last_sequence v c.ordered) in
            subst (λ rows. delete_pending r.sequence (buried d) ≡ (ok 1, moved_to_dead rows d)) one
              run
      ]

  -- One row more in the dead letters, at the cost of the `k` oldest ones.
  pub record MovesOne (limits : Limits) (p : Progress) (d : Db) (rest : List Row) (k : ℕ)
      (p' : Progress) (d' : Db) : Type 0 where
    pub state : d' ≡ moved_to_dead rest (with_dead (drop k d.dead_letter) d)
    pub size : k ≤ length d.dead_letter
    pub room : fits limits (length r.payload) (drop k d.dead_letter) ≡ true
    pub least : (j : ℕ) → j < k → fits limits (length r.payload) (drop j d.dead_letter) ≡ false
    pub counts : Counts p' d'
    pub moved : p'.moved ≡ p.moved + 1
    pub evicted : p'.evicted ≡ p.evicted + k
    pub consistent : IsConsistent d'

  pub move_one_cases :
      (limits : Limits) (p : Progress) (d : Db) (rest : List Row)
      → IsConsistent d
      → Counts p d
      → Removes r d.pending rest
      → is_empty last_error ≡ false
      → ((k : ℕ) × (p' : Progress) × (d' : Db) × (move_one limits r failed_ns last_error
              delivery_uncertain p d
            ≡ (ok p', d'))
          × MovesOne limits p d rest k p' d')
        ⊎ ((d' : Db) × (move_one limits r failed_ns last_error delivery_uncertain p d
              ≡ (err dead_letter_full, d'))
            × (fits limits (length r.payload) [] ≡ false))
  unfolding move_one
  move_one_cases limits p d rest c n v t =
      elim (make_room_cases (suc (length d.dead_letter)) limits r p d d.dead_letter refl
        (omega arith) c n) [
          | inr (d', run, small) ↦ inr (d', rw run, small)
          | inl (k, p', d1, run, m) ↦
              let v1 : Removes r d1.pending rest = rw m.state v in
              inl (
                k,
                one_moved r p',
                moved_to_dead rest d1,
                rw (
                  run,
                  insert_dead_letter_pending d1 rest m.consistent v1 t,
                  delete_buried d1 rest m.consistent v1,
                ),
                record {
                  state = ap (moved_to_dead rest) m.state;
                  size = m.size;
                  room = m.room;
                  least = m.least;
                  counts = record {
                    rows = ground (
                      arith,
                      m.counts.rows,
                      length-append d1.dead_letter (dead_of (suc d1.last_dead_letter_id) ∷ []),
                    );
                    bytes = ground (
                      arith,
                      m.counts.bytes,
                      dead_payload_bytes-append d1.dead_letter
                          (dead_of (suc d1.last_dead_letter_id)),
                    );
                  };
                  moved = omega (arith, m.moved);
                  evicted = m.evicted;
                  consistent = moved-IsConsistent d1 rest m.consistent v1;
                },
              )
        ]

  -- The dead letters stay within their limits, and the queue only shrinks.
  pub MovesOne-IsWithin :
      (limits : Limits) (p : Progress) (d : Db) (rest : List Row) (k : ℕ) (p' : Progress) (d' : Db)
      → Removes r d.pending rest
      → MovesOne limits p d rest k p' d'
      → IsWithin limits d
      → IsWithin limits d'
  MovesOne-IsWithin limits p d rest k p' d' v m w =
      let size = Removes-payload_bytes v in
      let dead = drop k d.dead_letter in
      let new = dead_of (suc d.last_dead_letter_id) in
      rw m.state (record {
        rows = omega (arith, size, w.rows);
        bytes = omega (arith, size, w.bytes);
        dead_rows = ground (arith, m.room, length-append dead (new ∷ []));
        dead_bytes = ground (arith, m.room, dead_payload_bytes-append dead new);
        payloads = Removes-All _ v w.payloads;
      })
