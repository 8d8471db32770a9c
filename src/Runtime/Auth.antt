-- ===== src/Runtime/Auth.antt =====
-- The credentials issue of custom_components/hass_questdb_writer/runtime.py: `_sync_auth_issue` and
-- `_request_reauth_once`, for a runtime with an entry ID. The issue registry and the
-- reauthentication flow are the repository's calls, as a flag and a count.
use hass_questdb_writer.Prelude.{
  ℕ, ◌+◌, ◌≡◌, refl, ap, ◌∙◌, Bool, true, false, not, ◌&&◌, ◌||◌, Option, some, List, [], ◌∷◌,
  if◌then◌else◌, arith, Bool-cases, inl, inr,
}
use hass_questdb_writer.Worker.Accounting.{if_both}
use hass_questdb_writer.Worker.{Worker, WorkerState, Reason, blocked, block_auth}

pub record Issue : Type 0 where
  pub is_open : Bool
  pub reauth_requested : Bool
  pub requests : ℕ

-- `snapshot.state == WorkerState.BLOCKED`
abbrev pub is_blocked : WorkerState → Bool
is_blocked blocked = true
is_blocked _ = false

-- `snapshot.block_reason == "auth"`
abbrev pub is_auth : Option Reason → Bool
is_auth (some block_auth) = true
is_auth _ = false

abbrev pub is_outage : Worker → Bool
is_outage w = is_blocked w.state && is_auth w.block_reason

-- `_request_reauth_once`; the first argument holds where there is a `request_reauth`.
unfoldable pub request_reauth_once : Bool → Issue → Issue
request_reauth_once can_request i =
    if i.reauth_requested || not can_request
    then i
    else record i { reauth_requested = true; requests = i.requests + 1 }

-- `_sync_auth_issue`
unfoldable pub sync_auth_issue : Bool → Worker → Issue → Issue
unfolding request_reauth_once
sync_auth_issue can_request w i =
    if is_outage w
    then request_reauth_once can_request (record i { is_open = true })
    else record i { is_open = false; reauth_requested = false }

-- The rounds of `_monitor_loop`, by what each finds the worker in.
unfoldable pub monitor : Bool → List Worker → Issue → Issue
unfolding sync_auth_issue
monitor can_request [] i = i
monitor can_request (w ∷ ws) i = monitor can_request ws (sync_auth_issue can_request w i)

-- The number of outages: of the workers in one whose predecessor was in none.
unfoldable pub outages : Bool → List Worker → ℕ
outages before [] = 0
outages before (w ∷ ws) = (if not before && is_outage w then 1 else 0) + outages (is_outage w) ws

abbrev pub last_outage : Bool → List Worker → Bool
last_outage before [] = before
last_outage before (w ∷ ws) = last_outage (is_outage w) ws

-- One round asks where an outage starts, and its flags say whether there is one.
sync_auth_issue-round :
    (w : Worker) (i : Issue)
    → ((sync_auth_issue true w i).requests
        ≡ i.requests + (if not i.reauth_requested && is_outage w then 1 else 0))
      × ((sync_auth_issue true w i).reauth_requested ≡ is_outage w)
unfolding sync_auth_issue request_reauth_once
sync_auth_issue-round w i = elim (Bool-cases (is_outage w)) [
  | inr e ↦ rw e (elim (Bool-cases i.reauth_requested) [
    | inl f ↦ rw f (omega arith, refl)
    | inr f ↦ rw f (omega arith, refl)
  ])
  | inl e ↦ rw e (elim (Bool-cases i.reauth_requested) [
    | inl f ↦ rw f (omega arith, refl)
    | inr f ↦ rw f (omega arith, refl)
  ])
]

sync_auth_issue-is_open :
    (can_request : Bool) (w : Worker) (i : Issue)
    → (sync_auth_issue can_request w i).is_open ≡ is_outage w
unfolding sync_auth_issue request_reauth_once
sync_auth_issue-is_open can_request w i = elim (Bool-cases (is_outage w)) [
  | inr e ↦ rw e refl
  | inl e ↦ rw e (
      if_both (λ (j : Issue). j.is_open ≡ true) (i.reauth_requested || not can_request) _ _ refl
        refl)
]

monitor-requests :
    (ws : List Worker) (i : Issue)
    → (monitor true ws i).requests ≡ i.requests + outages i.reauth_requested ws
unfolding monitor outages
monitor-requests [] i = omega arith
monitor-requests (w ∷ ws) i =
    let (a, b) = sync_auth_issue-round w i in
    let c : (monitor true ws (sync_auth_issue true w i)).requests
        ≡ (sync_auth_issue true w i).requests + outages (is_outage w) ws =
      monitor-requests ws (sync_auth_issue true w i)
      ∙ ap (λ x. (sync_auth_issue true w i).requests + outages x ws) b in
    omega (arith, a, c)

monitor-is_open :
    (can_request : Bool) (ws : List Worker) (i : Issue)
    → (monitor can_request ws i).is_open ≡ last_outage i.is_open ws
unfolding monitor
monitor-is_open can_request [] i = refl
monitor-is_open can_request (w ∷ ws) i =
    monitor-is_open can_request ws (sync_auth_issue can_request w i)
    ∙ ap (λ b. last_outage b ws) (sync_auth_issue-is_open can_request w i)

-- Over any rounds of the monitor, a runtime that can ask for reauthentication asks once per outage,
-- that is where a round finds one and the round before did not, and the issue is open exactly where
-- the last round found one.
pub monitor_lem :
    (ws : List Worker) (i : Issue)
    → ((monitor true ws i).requests ≡ i.requests + outages i.reauth_requested ws)
      × ((monitor true ws i).is_open ≡ last_outage i.is_open ws)
monitor_lem ws i = (monitor-requests ws i, monitor-is_open true ws i)
