-- ===== src/Spool/Enqueue/Stored.antt =====
-- Finding the events of a batch by their IDs after the INSERTs.
use mathlib.Core.Path.{subst}
use hass_questdb_writer.Prelude.{
  suc, ◌≡◌, refl, inl, inr, Bool, true, false, none, some, List, [], ◌∷◌, ◌++◌, any_of, find_by,
  arith, All, Member, text_eq, text_eq_iff, text_eq_refl, if◌then◌else◌, Option-cases, Bool-cases,
}
use hass_questdb_writer.Spool.Types.{NewEvent, DeadRow, Db}
use hass_questdb_writer.Spool.Table.{same_event, same_dead_event, new_row}
use hass_questdb_writer.Spool.Enqueue.{existing}
use hass_questdb_writer.Spool.Enqueue.Inserts.{
  Distinct, IsFresh, all_inserted, All-IsFresh-inserted,
}
use hass_questdb_writer.Spool.Enqueue.Selection.{Stored}
use hass_questdb_writer.Spool.Invariant.Statements.{inserted}

find_by-append :
    {A : Type 0} (test : A → Bool) (xs : List A) (x : A)
    → find_by test (xs ++ x ∷ [])
      ≡ elim (find_by test xs) [ none ↦ if test x then some x else none | some y ↦ some y ]
unfolding find_by
find_by-append test [] x = refl
find_by-append test (y ∷ ys) x = ground (arith, find_by-append test ys x)

find_by-eq-some-any_of :
    {A : Type 0} (test : A → Bool) (xs : List A) (x : A)
    → find_by test xs ≡ some x
    → any_of test xs ≡ true
unfolding find_by any_of
find_by-eq-some-any_of test [] x h = absurd (ground arith)
find_by-eq-some-any_of test (y ∷ ys) x h = ground (arith, find_by-eq-some-any_of test ys x)

any_of-find_by :
    {A : Type 0} (test : A → Bool) (xs : List A) → any_of test xs ≡ false → find_by test xs ≡ none
unfolding find_by any_of
any_of-find_by test [] h = refl
any_of-find_by test (y ∷ ys) h = ground (arith, any_of-find_by test ys)

Stored-inserted_self : (e : NewEvent) (d : Db) → IsFresh d e → Stored (inserted e d) e
unfolding existing
Stored-inserted_self e d f = ground (
  arith,
  find_by-append (same_event e.event_id) d.pending (new_row e (suc d.last_sequence)),
  any_of-find_by (same_event e.event_id) d.pending f.not_pending,
  text_eq_refl e.event_id,
)

other_id :
    (p e : NewEvent) (d : Db) (r : DeadRow)
    → IsFresh d p
    → find_by (same_dead_event e.event_id) d.dead_letter ≡ some r
    → text_eq p.event_id e.event_id ≡ false
other_id p e d r f h = elim (Bool-cases (text_eq p.event_id e.event_id)) [
  | inr different ↦ different
  | inl same ↦
      let i : p.event_id ≡ e.event_id = (text_eq_iff p.event_id e.event_id).0 same in
      let there = find_by-eq-some-any_of (same_dead_event e.event_id) d.dead_letter r h in
      let gone : any_of (same_dead_event e.event_id) d.dead_letter ≡ false =
        subst (λ k. any_of (same_dead_event k) d.dead_letter ≡ false) i f.not_dead in
      absurd (cc (there, gone))
]

pub Stored-inserted : (p e : NewEvent) (d : Db) → IsFresh d p → Stored d e → Stored (inserted p d) e
unfolding existing
Stored-inserted p e d f s = elim (Option-cases (find_by (same_event e.event_id) d.pending)) [
  | inr (r, found) ↦ ground (
    arith,
    found,
    find_by-append (same_event e.event_id) d.pending (new_row p (suc d.last_sequence)),
  )
  | inl gone ↦ elim (Option-cases (find_by (same_dead_event e.event_id) d.dead_letter)) [
    | inl nowhere ↦ absurd (ground (arith, gone, nowhere))
    | inr (r, dead) ↦ ground (
      arith,
      gone,
      dead,
      other_id p e d r f dead,
      find_by-append (same_event e.event_id) d.pending (new_row p (suc d.last_sequence)),
    )
  ]
]

pub Stored-all_inserted :
    (es : List NewEvent) (e : NewEvent) (d : Db)
    → All (IsFresh d) es
    → Distinct es
    → Stored d e
    → Stored (all_inserted es d) e
unfolding all_inserted
Stored-all_inserted [] e d f n s = s
Stored-all_inserted (p ∷ ps) e d f n s =
    Stored-all_inserted ps e (inserted p d) (All-IsFresh-inserted p ps d n.0 f.1) n.1
      (Stored-inserted p e d f.0 s)

pub Stored-all_inserted_self :
    (es : List NewEvent) (e : NewEvent) (d : Db)
    → All (IsFresh d) es
    → Distinct es
    → Member e es
    → Stored (all_inserted es d) e
unfolding all_inserted
Stored-all_inserted_self [] e d f n m = absurd m
Stored-all_inserted_self (p ∷ ps) e d f n (inr m) =
    Stored-all_inserted_self ps e (inserted p d) (All-IsFresh-inserted p ps d n.0 f.1) n.1 m
Stored-all_inserted_self (p ∷ ps) e d f n (inl q) =
    Stored-all_inserted ps e (inserted p d) (All-IsFresh-inserted p ps d n.0 f.1) n.1
      (rw q (Stored-inserted_self p d f.0))
