-- ===== src/Spool/Open/Restores.antt =====
-- `initialize_schema` on a file whose counters may be wrong.
use mathlib.Core.List.{Nodup, Nodup-append, mem-cons, not-mem-nil, Disjoint}
use mathlib.Core.HLevel.{⊥_prop}
use mathlib.Core.Logic.Or
use hass_questdb_writer.Prelude.{
  ℕ, Member, text_eq, ◌≤◌, ◌≡◌, refl, ◌∙◌, ◌⊎◌, inl, inr, true, false, ◌||◌, none, some, List, [],
  ◌∷◌, map, arith, All, any_of, Bool-cases, ◌==◌, ==_iff, text_eq_iff, ok, err,
}
use hass_questdb_writer.Prelude.Members.{any_of_witness, Member-any_of}
use hass_questdb_writer.Spool.Types.{unsupported_version, spool_state, Row, DeadRow, Db, Spool}
use hass_questdb_writer.Spool.Transaction.{transaction}
use hass_questdb_writer.Spool.Invariant.{Ascending, HasContent, IsConsistent, count_stats}
use hass_questdb_writer.Spool.Invariant.Keys.{not_mem_of_any_of}
use hass_questdb_writer.Spool.Open.{
  schema_version, is_same, overlap, reconcile_stats, initialize_body, initialize_schema,
}

-- What the constraints of the two tables make sure of, each by itself, whatever the counters say.
pub record HasTables (d : Db) : Type 0 where
  pub ids : Nodup (map (λ (r : Row). r.event_id) d.pending)
  pub dead_ids : Nodup (map (λ (r : DeadRow). r.event_id) d.dead_letter)
  pub sequences : Nodup (map (λ (r : Row). r.sequence) d.pending)
  pub dead_sequences : Nodup (map (λ (r : DeadRow). r.original_sequence) d.dead_letter)
  pub ordered : Ascending 0 d.pending d.last_sequence
  pub issued : All (λ r. r.original_sequence ≤ d.last_sequence) d.dead_letter
  pub checked : All HasContent d.pending

disjoint_keys :
    {K : Type 0} (f : Row → K) (g : DeadRow → K)
    → ((r : Row) (x : DeadRow) → g x ≡ f r → is_same r x ≡ true)
    → (rows : List Row) (dead : List DeadRow) → any_of (λ r. any_of (is_same r) dead) rows ≡ false
    → Disjoint (map f rows) (map g dead)
unfolding any_of
disjoint_keys f g complete [] dead h a m n = not-mem-nil m
disjoint_keys f g complete (r ∷ rs) dead h a m n =
    Or.elim ⊥_prop (mem-cons.0 m)
      (λ e.
        not_mem_of_any_of g a (is_same r) (λ x k. complete r x (k ∙ e)) dead (ground (arith, h)) n)
      (λ k. disjoint_keys f g complete rs dead (ground (arith, h)) a k n)

-- The file is open with exact counters and nothing lost.
pub record IsOpened (s s' : Spool) : Type 0 where
  pub consistent : IsConsistent s'.db
  pub pending : s'.db.pending ≡ s.db.pending
  pub dead_letter : s'.db.dead_letter ≡ s.db.dead_letter
  pub version : s'.db.user_version ≡ 1

-- The database of a file that has passed all checks.
abbrev opened : Db → Db
opened d = record d {
  stats = some (count_stats d.pending d.dead_letter);
  user_version = schema_version;
}

opened-IsConsistent : (d : Db) → HasTables d → overlap d ≡ false → IsConsistent (opened d)
unfolding overlap
opened-IsConsistent d t h = record {
  counted = refl;
  ids = Nodup-append.1 (
    t.ids,
    t.dead_ids,
    disjoint_keys (λ r. r.event_id) (λ x. x.event_id) same_id d.pending d.dead_letter h,
  );
  sequences = Nodup-append.1 (
    t.sequences,
    t.dead_sequences,
    disjoint_keys (λ r. r.sequence) (λ x. x.original_sequence) same_number d.pending d.dead_letter
        h,
  );
  ordered = t.ordered;
  issued = t.issued;
  checked = t.checked;
}
  where
    same_id : (r : Row) (x : DeadRow) → x.event_id ≡ r.event_id → is_same r x ≡ true
    same_id r x e = ground (arith, (text_eq_iff x.event_id r.event_id).1 e)

    same_number : (r : Row) (x : DeadRow) → x.original_sequence ≡ r.sequence → is_same r x ≡ true
    same_number r x e = ground (arith, (==_iff x.original_sequence r.sequence).1 e)

-- An event, or a sequence number, is in both tables.
abbrev pub IsShared : Db → Type 0
IsShared d =
    (r : Row) × (x : DeadRow) × Member r d.pending
    × Member x d.dead_letter
    × ((x.event_id ≡ r.event_id) ⊎ (x.original_sequence ≡ r.sequence))

is_same_cases :
    (r : Row) (x : DeadRow)
    → is_same r x ≡ true
    → (x.event_id ≡ r.event_id) ⊎ (x.original_sequence ≡ r.sequence)
is_same_cases r x h = elim (Bool-cases (text_eq x.event_id r.event_id)) [
  | inl e ↦ inl ((text_eq_iff x.event_id r.event_id).0 e)
  | inr e ↦ inr (ground (arith, h, e))
]

is_same_holds :
    (r : Row) (x : DeadRow)
    → (x.event_id ≡ r.event_id) ⊎ (x.original_sequence ≡ r.sequence)
    → is_same r x ≡ true
is_same_holds r x (inl e) = ground (arith, (text_eq_iff x.event_id r.event_id).1 e)
is_same_holds r x (inr e) = ground (arith, (==_iff x.original_sequence r.sequence).1 e)

overlap-IsShared : (d : Db) → overlap d ≡ true → IsShared d
unfolding overlap
overlap-IsShared d h =
    let (r, m, e) = any_of_witness (λ r. any_of (is_same r) d.dead_letter) d.pending h in
    let (x, n, f) = any_of_witness (is_same r) d.dead_letter e in (r, x, m, n, is_same_cases r x f)

IsShared-overlap : (d : Db) → IsShared d → overlap d ≡ true
unfolding overlap
IsShared-overlap d (r, x, m, n, e) =
    Member-any_of (λ r. any_of (is_same r) d.dead_letter) d.pending r m
      (Member-any_of (is_same r) d.dead_letter x n (is_same_holds r x e))

-- The versions that are opened: a new file's, and the current one.
abbrev pub IsKnown : ℕ → Type 0
IsKnown version = (version ≡ 0) ⊎ (version ≡ 1)

-- Opening a file whose tables keep their own constraints, with working storage. For a schema version
-- other than 0 and 1 it raises and changes nothing. For these two it raises SpoolStateError and
-- changes nothing where an event or a sequence number is in both tables, and where none is, it leaves
-- both tables as they were, sets the version to 1, and makes the counters exact, whatever they were.
pub initialize_schema_lem :
    (s : Spool)
    → s.is_open ≡ true
    → HasTables s.db
    → (¬ IsKnown s.db.user_version) × (initialize_schema none s ≡ (err unsupported_version, s))
      ⊎ IsKnown s.db.user_version
        × IsShared s.db
        × (initialize_schema none s ≡ (err spool_state, s))
      ⊎ IsKnown s.db.user_version
        × (¬ IsShared s.db)
        × ((s' : Spool) × (initialize_schema none s ≡ (ok tt, s')) × IsOpened s s')
unfolding initialize_schema transaction initialize_body reconcile_stats overlap
initialize_schema_lem s open_ t =
    elim (Bool-cases ((s.db.user_version == 0) || (s.db.user_version == schema_version))) [
      | inr other ↦ inl (ground (arith, other), ground (arith, open_, other))
      | inl known ↦ elim (Bool-cases (overlap s.db)) [
        | inl both ↦ inr (
            inl (
              ground (arith, known),
              overlap-IsShared s.db both,
              ground (arith, open_, known, both),
            ))
        | inr apart ↦ inr (
            inr (
              ground (arith, known),
              (λ shared. absurd (cc (apart, IsShared-overlap s.db shared))),
              (
                record s { db = opened s.db },
                ground (arith, open_, known, apart),
                record {
                  consistent = opened-IsConsistent s.db t apart;
                  pending = refl;
                  dead_letter = refl;
                  version = refl;
                },
              ),
            ))
      ]
    ]
