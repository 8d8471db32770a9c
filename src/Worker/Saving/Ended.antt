-- ===== src/Worker/Saving/Ended.antt =====
-- How `_persist_loop` of custom_components/hass_questdb_writer/worker.py ends.
use hass_questdb_writer.Prelude.{
  ◌≡◌, refl, ◌⊎◌, inl, inr, Bool, true, false, ◌&&◌, List, [], ◌∷◌, ◌+◌, length, Result, ok, err,
  is_empty, arith, if◌then◌else◌,
}
use hass_questdb_writer.Spool.Types.{Error, Stats}
use hass_questdb_writer.Spool.Peek.{stats}
use hass_questdb_writer.Worker.{Worker, drain_ingress}
use hass_questdb_writer.Worker.Accounting.{if_cases}
use hass_questdb_writer.Worker.Persisted.{is_empty-nil}
use hass_questdb_writer.Worker.Persist.{persist_held}
use hass_questdb_writer.Worker.Saving.{
  Setup, Turn, Ending, goes_on, returns, spool_raises, shutdown_raises, is_over, check_stop,
  after_stats, after_persist, save, turn, next, run,
}

-- The loop returned with nothing held or queued, or an exception left it, WorkerShutdownError with
-- the number of events that are left.
pub data IsEnded : Ending × Worker → Type 0 where
  emptied : {w : Worker} → w.held ≡ [] → w.ingress ≡ [] → IsEnded (returns, w)
  failed_with : (x : Error) {w : Worker} → IsEnded (spool_raises x, w)
  ran_out : {w : Worker} → IsEnded (shutdown_raises (length w.held + length w.ingress), w)

-- A turn ended the loop, or it goes on and is no turn after the deadline of a stop.
abbrev Runs : Turn → Ending × Worker → Type 0
Runs t p = IsEnded p ⊎ ((p.0 ≡ goes_on) × (t.stopping && is_over t.now t.deadline ≡ false))

-- A turn in the list finds a stop requested and its deadline over.
unfoldable pub HasDeadline : List Turn → Type 0
HasDeadline [] = ⊥
HasDeadline (t ∷ ts) = (t.stopping && is_over t.now t.deadline ≡ true) ⊎ HasDeadline ts

abbrev Stops : Turn → Worker → Ending → Type 0
Stops t w e = Runs t (e, w)

module _ (t : Turn) where
  check_stop-Runs : (w : Worker) → Runs t (check_stop t w, w)
  unfolding check_stop
  check_stop-Runs w =
      if_cases (Stops t w) t.stopping _ _
        (λ s.
          if_cases (Stops t w) (is_empty w.held && is_empty w.ingress) _ _
            (λ e. inl (
              emptied (is_empty-nil w.held (ground (arith, e)))
                (is_empty-nil w.ingress (ground (arith, e)))))
            (λ _.
              if_cases (Stops t w) (is_over t.now t.deadline) _ _ (λ _. inl ran_out)
                (λ o. inr (refl, ground (arith, s, o)))))
        (λ s. inr (refl, ground (arith, s)))

  after_stats-Runs : (r : Result Error Stats) (w : Worker) → Runs t (after_stats t r w)
  unfolding after_stats
  after_stats-Runs (err x) w = inl (failed_with x)
  after_stats-Runs (ok st) w = check_stop-Runs (record w { spool_stats = st })

  after_persist-Runs : (p : Result Error Bool × Worker) → Runs t (after_persist t p)
  unfolding after_persist
  after_persist-Runs (err x, w) = inl (failed_with x)
  after_persist-Runs (ok b, w) = after_stats-Runs (stats t.stats_fault w.spool) w

  turn-Runs : (s : Setup) (w : Worker) → Runs t (turn s t w)
  unfolding turn save
  turn-Runs s w =
      let w' : Worker = drain_ingress s.settings w in
      after_persist-Runs (
        if is_empty w'.held
        then (ok true, w')
        else persist_held s.limits s.describe t.surroundings w')

next-IsEnded : {p : Ending × Worker} (rest : Ending × Worker) → IsEnded p → IsEnded (next p rest)
next-IsEnded rest (emptied h i) = emptied h i
next-IsEnded rest (failed_with x) = failed_with x
next-IsEnded rest ran_out = ran_out

next-goes_on : (p rest : Ending × Worker) → p.0 ≡ goes_on → IsEnded rest → IsEnded (next p rest)
next-goes_on (goes_on, w) rest h e = e
next-goes_on (returns, w) rest h e = absurd (cc (h))
next-goes_on (spool_raises x, w) rest h e = absurd (cc (h))
next-goes_on (shutdown_raises n, w) rest h e = absurd (cc (h))

-- Once a turn of the persist loop finds a stop requested and its deadline over, the loop has ended:
-- it returned with no event held or queued, an exception of the spool left it, or
-- WorkerShutdownError did, with the number of events that are left.
pub run-IsEnded : (s : Setup) (ts : List Turn) (w : Worker) → HasDeadline ts → IsEnded (run s ts w)
unfolding run HasDeadline
run-IsEnded s [] w h = absurd h
run-IsEnded s (t ∷ ts) w h = elim (turn-Runs t s w) [
  | inl e ↦ next-IsEnded (run s ts (turn s t w).1) e
  | inr (g, n) ↦ elim h [
    | inl d ↦ absurd (cc (d, n))
    | inr later ↦
        next-goes_on (turn s t w) (run s ts (turn s t w).1) g
          (run-IsEnded s ts (turn s t w).1 later)
  ]
]
