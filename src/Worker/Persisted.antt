-- ===== src/Worker/Persisted.antt =====
-- `_persist_held` and the held events.
use mathlib.Core.Path.{subst}
use hass_questdb_writer.Prelude.{
  ◌+◌, ◌≡◌, refl, sym, ap, ◌∙◌, ◌⊎◌, inl, inr, Bool, true, false, Option, Option-cases, List, [],
  ◌∷◌, length, arith, All, Result-cases, Text, is_empty, Result, ok, err,
}
use hass_questdb_writer.Spool.Types.{Error, NewEvent, Limits, Spool, SqliteError}
use hass_questdb_writer.Spool.Peek.{stats}
use hass_questdb_writer.Spool.Enqueue.Selection.{Stored}
use hass_questdb_writer.Spool.Enqueue.Guarantees.{enqueue_many_lem}
use hass_questdb_writer.Spool.Invariant.{IsConsistent}
use hass_questdb_writer.Worker.{Worker, Cause, storage_cause, spool_cause, block_disk_space}
use hass_questdb_writer.Worker.Persist.{
  Surroundings, check_space, persist_reason, persist_failed, persist_done, after_insert,
  persist_write, persist_held,
}
use hass_questdb_writer.Worker.Accounting.{
  if_both, if_cases, Same, check_space-Same, block_on_storage-Same, resume-Same,
}

-- The worker still holds its events, and the spool is as it was.
pub record StillHeld (w : Worker) (r : Result Error Bool) (w' : Worker) : Type 0 where
  pub spool : w'.spool ≡ w.spool
  pub held : w'.held ≡ w.held
  pub ingress : w'.ingress ≡ w.ingress
  pub answer : (r ≡ ok false) ⊎ ((x : Error) × (r ≡ err x))

-- All held events are stored, and counted as persisted.
pub record NowStored (w : Worker) (r : Result Error Bool) (w' : Worker) : Type 0 where
  pub stored : All (Stored w'.spool.db) w.held
  pub held : w'.held ≡ []
  pub ingress : w'.ingress ≡ w.ingress
  pub persisted : w'.persisted_events ≡ w.persisted_events + length w.held
  pub answer : (r ≡ ok true) ⊎ ((x : Error) × (r ≡ err x))

Same-StillHeld :
    (w w' : Worker) (r : Result Error Bool)
    → Same w w'
    → (r ≡ ok false) ⊎ ((x : Error) × (r ≡ err x))
    → StillHeld w r w'
Same-StillHeld w w' r s a = record {
  spool = s.spool;
  held = s.held;
  ingress = s.ingress;
  answer = a;
}

persist_failed-StillHeld :
    (describe : Cause → Text) (x : Error) (w : Worker)
    → StillHeld w (persist_failed describe x w).0 (persist_failed describe x w).1
unfolding persist_failed
persist_failed-StillHeld describe x w = elim (Option-cases (persist_reason x)) [
  | inl fatal ↦
      rw (fatal, persist_failed)
        (record { spool = refl; held = refl; ingress = refl; answer = inr (x, refl) })
  | inr (reason, waits) ↦
      rw (waits, persist_failed)
        (Same-StillHeld w _ _ (block_on_storage-Same reason (describe (spool_cause x)) w)
          (inl refl))
]

persist_done-NowStored :
    (fault : Option SqliteError) (w : Worker)
    → All (Stored w.spool.db) w.held
    → NowStored w (persist_done fault w).0 (persist_done fault w).1
unfolding persist_done
persist_done-NowStored fault w stored = elim (Result-cases (stats fault w.spool)) [
  | inr (x, e) ↦
      rw (e, persist_done)
        (record {
          stored = stored;
          held = refl;
          ingress = refl;
          persisted = refl;
          answer = inr (x, refl);
        })
  | inl (s, e) ↦
      let w1 : Worker = record w {
        persisted_events = w.persisted_events + length w.held;
        held = [];
        held_unpersisted = 0;
        spool_stats = s;
      } in
      let same = resume-Same w1 in
      rw (e, persist_done)
        (record {
          stored = subst (λ (t : Spool). All (Stored t.db) w.held) (sym same.spool) stored;
          held = same.held;
          ingress = same.ingress;
          persisted = same.persisted;
          answer = inl refl;
        })
]

pub is_empty-nil : {A : Type 0} (xs : List A) → is_empty xs ≡ true → xs ≡ []
is_empty-nil [] e = refl
is_empty-nil (x ∷ xs) e = absurd (cc e)

StillHeld-from :
    (w w1 w' : Worker) (r : Result Error Bool) → Same w w1 → StillHeld w1 r w' → StillHeld w r w'
StillHeld-from w w1 w' r s h = record {
  spool = h.spool ∙ s.spool;
  held = h.held ∙ s.held;
  ingress = h.ingress ∙ s.ingress;
  answer = h.answer;
}

-- What a call of `_persist_held` may do.
abbrev pub Persists : Worker → Result Error Bool × Worker → Type 0
Persists w (r, w') = StillHeld w r w' ⊎ NowStored w r w'

persist_write-Persists :
    (limits : Limits) (describe : Cause → Text) (env : Surroundings) (w : Worker)
    → IsConsistent w.spool.db
    → Persists w (persist_write limits describe env w)
unfolding persist_write after_insert
persist_write-Persists limits describe env w c =
    elim (enqueue_many_lem limits env.enqueue_fault w.held w.spool c) [
      | inr (x, e) ↦
          subst (λ p. Persists w (after_insert describe env w p)) (sym e)
            (inl (persist_failed-StillHeld describe x w))
      | inl (fresh, s, e, _, _, stored) ↦
          let done = persist_done-NowStored env.stats_fault (record w { spool = s }) stored in
          subst (λ p. Persists w (after_insert describe env w p)) (sym e)
            (inr (record {
              stored = done.stored;
              held = done.held;
              ingress = done.ingress;
              persisted = done.persisted;
              answer = done.answer;
            }))
    ]

Persists-from :
    (w w1 : Worker) (p : Result Error Bool × Worker) → Same w w1 → Persists w1 p → Persists w p
Persists-from w w1 (r, w') same (inl h) = inl (StillHeld-from w w1 w' r same h)
Persists-from w w1 (r, w') same (inr h) = inr (record {
  stored = subst (All (Stored w'.spool.db)) same.held h.stored;
  held = h.held;
  ingress = h.ingress ∙ same.ingress;
  persisted =
      omega (arith, h.persisted, same.persisted, ap (λ (es : List NewEvent). length es) same.held);
  answer = h.answer;
})

-- A call of `_persist_held` on a consistent spool either leaves the held events and the spool as
-- they were and answers `false` or raises, or stores all held events, and answers `true` unless
-- reading the counters raises.
pub persist_held_lem :
    (limits : Limits) (describe : Cause → Text) (env : Surroundings) (w : Worker)
    → IsConsistent w.spool.db
    → Persists w (persist_held limits describe env w)
unfolding persist_held
persist_held_lem limits describe env w c =
    let w1 : Worker = (check_space env w).1 in
    let same : Same w w1 = check_space-Same env w in
    if_cases (Persists w) (is_empty w.held) _ _
      (λ nothing.
        let none_ = is_empty-nil w.held nothing in
        inr (record {
          stored = subst (All (Stored w.spool.db)) (sym none_) tt;
          held = none_;
          ingress = refl;
          persisted = omega (arith, ap (λ (es : List NewEvent). length es) none_);
          answer = inl refl;
        }))
      (λ more.
        if_both (Persists w) _ _ _
          (inl (
            StillHeld-from w w1 _ _ same (
              Same-StillHeld w1 _ _
                (block_on_storage-Same block_disk_space
                  (describe (storage_cause (check_space env w).0)) w1)
                (inl refl))))
          (Persists-from w w1 _ same (
            persist_write-Persists limits describe env w1
              (subst (λ (t : Spool). IsConsistent t.db) (sym same.spool) c))))
