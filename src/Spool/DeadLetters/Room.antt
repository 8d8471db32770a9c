-- ===== src/Spool/DeadLetters/Room.antt =====
-- The eviction loop of `move_to_dead_letter`: `make_room`.
use hass_questdb_writer.Prelude.{
  ℕ, zero, suc, ◌+◌, ◌≤◌, ◌<◌, ◌≡◌, refl, ◌⊎◌, inl, inr, Bool, true, false, not, ◌&&◌, none, some,
  List, [], ◌∷◌, length, drop, arith, Bool-cases, leb, ok, err,
}
use hass_questdb_writer.Spool.Types.{dead_letter_full, Row, DeadRow, Db, Limits}
use hass_questdb_writer.Spool.Table.{evict_oldest}
use hass_questdb_writer.Spool.DeadLetters.{Progress, lacks_room, make_room, one_evicted}
use hass_questdb_writer.Spool.Invariant.{dead_payload_bytes, IsConsistent, count_stats}
use hass_questdb_writer.Spool.Invariant.Rows.{here}
use hass_questdb_writer.Spool.Invariant.Keys.{Nodup-remove_right}

-- Whether a payload of `n` bytes fits beside the dead letters.
abbrev pub fits : Limits → ℕ → List DeadRow → Bool
fits limits n dead =
    leb (length dead + 1) limits.max_dead_letter_rows
    && leb (dead_payload_bytes dead + n) limits.max_dead_letter_bytes

-- The database with another table of dead letters.
abbrev pub with_dead : List DeadRow → Db → Db
with_dead dead d = record d { dead_letter = dead; stats = some (count_stats d.pending dead) }

-- The loop's counters stand for the table.
pub record Counts (p : Progress) (d : Db) : Type 0 where
  pub rows : p.current_rows ≡ length d.dead_letter
  pub bytes : p.current_bytes ≡ dead_payload_bytes d.dead_letter

pub evicted-IsConsistent :
    (x : DeadRow) (rest : List DeadRow) (d : Db)
    → d.dead_letter ≡ x ∷ rest
    → IsConsistent d
    → IsConsistent (with_dead rest d)
evicted-IsConsistent x rest d e c = record {
  counted = refl;
  ids =
      Nodup-remove_right (λ r. r.event_id) (λ r. r.event_id) d.pending {y = x} (here rest)
        (rw e at c.ids);
  sequences =
      Nodup-remove_right (λ r. r.sequence) (λ r. r.original_sequence) d.pending {y = x} (here rest)
        (rw e at c.sequences);
  ordered = c.ordered;
  issued = (rw e at c.issued).1;
  checked = c.checked;
}

evict_oldest_lem :
    (x : DeadRow) (rest : List DeadRow) (d : Db)
    → d.dead_letter ≡ x ∷ rest
    → IsConsistent d
    → evict_oldest d ≡ (ok (some (length x.payload)), with_dead rest d)
unfolding evict_oldest dead_payload_bytes
evict_oldest_lem x rest d e c = ground (arith, e, c.counted)

evict_oldest_nil : (d : Db) → d.dead_letter ≡ [] → evict_oldest d ≡ (ok none, d)
unfolding evict_oldest
evict_oldest_nil d e = ground (arith, e)

-- What the loop leaves: the `k` oldest are gone, the payload fits, and with fewer gone it did not.
pub record Makes (limits : Limits) (n : ℕ) (p : Progress) (d : Db) (dead : List DeadRow) (k : ℕ)
    (p' : Progress) (d' : Db) : Type 0 where
  pub state : d' ≡ with_dead (drop k dead) d
  pub size : k ≤ length dead
  pub room : fits limits n (drop k dead) ≡ true
  pub least : (j : ℕ) → j < k → fits limits n (drop j dead) ≡ false
  pub counts : Counts p' d'
  pub moved : p'.moved ≡ p.moved
  pub evicted : p'.evicted ≡ p.evicted + k
  pub consistent : IsConsistent d'

lacks_room-fits :
    (limits : Limits) (r : Row) (p : Progress) (d : Db)
    → Counts p d
    → lacks_room limits r p ≡ not (fits limits (length r.payload) d.dead_letter)
lacks_room-fits limits r p d n = ground (arith, n.rows, n.bytes)

least_suc :
    (limits : Limits) (n : ℕ) (x : DeadRow) (rest : List DeadRow) (k : ℕ)
    → fits limits n (x ∷ rest) ≡ false
    → ((j : ℕ) → j < k → fits limits n (drop j rest) ≡ false)
    → (j : ℕ) → j < suc k
    → fits limits n (drop j (x ∷ rest)) ≡ false
least_suc limits n x rest k h ih zero l = h
least_suc limits n x rest k h ih (suc j) l = ih j (omega arith)

Makes-none :
    (limits : Limits) (r : Row) (p : Progress) (d : Db) (dead : List DeadRow)
    → d.dead_letter ≡ dead
    → IsConsistent d
    → Counts p d
    → lacks_room limits r p ≡ false
    → Makes limits (length r.payload) p d dead 0 p d
Makes-none limits r p d dead e c n roomy = record {
  state = ground (arith, c.counted, e);
  size = omega arith;
  room = ground (arith, roomy, e, lacks_room-fits limits r p d n);
  least = λ j l. absurd (omega (arith, l));
  counts = n;
  moved = refl;
  evicted = omega arith;
  consistent = c;
}

-- Either the loop makes room, or a payload is too large for an empty table.
pub make_room_cases :
    (fuel : ℕ) (limits : Limits) (r : Row) (p : Progress) (d : Db) (dead : List DeadRow)
    → d.dead_letter ≡ dead
    → length dead < fuel
    → IsConsistent d
    → Counts p d
    → ((k : ℕ) × (p' : Progress) × (d' : Db) × (make_room fuel limits r p d ≡ (ok p', d'))
        × Makes limits (length r.payload) p d dead k p' d')
      ⊎ ((d' : Db) × (make_room fuel limits r p d ≡ (err dead_letter_full, d'))
          × (fits limits (length r.payload) [] ≡ false))
unfolding make_room dead_payload_bytes
make_room_cases zero limits r p d dead e f c n = absurd (omega arith)
make_room_cases (suc fuel) limits r p d [] e f c n = elim (Bool-cases (lacks_room limits r p)) [
  | inl lacks ↦ inr (
    d,
    ground (arith, lacks, evict_oldest_nil d e),
    ground (arith, lacks, e, lacks_room-fits limits r p d n),
  )
  | inr roomy ↦ inl (0, p, d, ground (arith, roomy), Makes-none limits r p d [] e c n roomy)
]
make_room_cases (suc fuel) limits r p d (x ∷ rest) e f c n =
    elim (Bool-cases (lacks_room limits r p)) [
      | inr roomy ↦
          inl (0, p, d, ground (arith, roomy), Makes-none limits r p d (x ∷ rest) e c n roomy)
      | inl lacks ↦
          let step : make_room (suc fuel) limits r p d
              ≡ make_room fuel limits r (one_evicted (length x.payload) p) (with_dead rest d) =
            ground (arith, lacks, evict_oldest_lem x rest d e c) in
          elim (make_room_cases fuel limits r (one_evicted (length x.payload) p) (with_dead rest d)
            rest refl (omega arith) (evicted-IsConsistent x rest d e c)
            (record { rows = ground (arith, n.rows, e); bytes = ground (arith, n.bytes, e) })) [
              | inr (d', run, small) ↦ inr (d', rw step run, small)
              | inl (k, p', d', run, m) ↦ inl (
                suc k,
                p',
                d',
                rw step run,
                record {
                  state = m.state;
                  size = omega (arith, m.size);
                  room = m.room;
                  least =
                      least_suc limits (length r.payload) x rest k
                        (ground (arith, lacks, e, lacks_room-fits limits r p d n)) m.least;
                  counts = m.counts;
                  moved = m.moved;
                  evicted = omega (arith, m.evicted);
                  consistent = m.consistent;
                },
              )
            ]
    ]

abbrev pub FewestEvicted : ℕ → Limits → Row → Progress → Db → Type 0
FewestEvicted fuel limits r p d =
    (k : ℕ) × (p' : Progress) × (d' : Db) × (make_room fuel limits r p d ≡ (ok p', d'))
    × (d' ≡ with_dead (drop k d.dead_letter) d)
    × (p'.evicted ≡ p.evicted + k)
    × (fits limits (length r.payload) (drop k d.dead_letter) ≡ true)
    × ((k ≡ 0)
        ⊎ ((j : ℕ) × (k ≡ suc j) × (fits limits (length r.payload) (drop j d.dead_letter) ≡ false)))

-- With fuel for more rounds than there are dead letters, the loop evicts the fewest oldest dead
-- letters that make the payload fit, or raises where it fits not even in an empty table.
pub make_room_lem :
    (fuel : ℕ) (limits : Limits) (r : Row) (p : Progress) (d : Db)
    → length d.dead_letter < fuel
    → IsConsistent d
    → Counts p d
    → FewestEvicted fuel limits r p d
      ⊎ ((d' : Db) × (make_room fuel limits r p d ≡ (err dead_letter_full, d'))
          × (fits limits (length r.payload) [] ≡ false))
make_room_lem fuel limits r p d f c n =
    elim (make_room_cases fuel limits r p d d.dead_letter refl f c n) [
      | inr full ↦ inr full
      | inl (zero, p', d', run, m) ↦ inl (0, p', d', run, m.state, m.evicted, m.room, inl refl)
      | inl (suc j, p', d', run, m) ↦
          inl
            (suc j, p', d', run, m.state, m.evicted, m.room, inr (j, refl, m.least j (omega arith)))
    ]
