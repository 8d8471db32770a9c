-- ===== src/Transport/Tests.antt =====
-- Requests at small inputs.
use hass_questdb_writer.Prelude.{
  ℕ, zero, suc, ◌≡◌, ◌<◌, refl, Option, none, some, [], ◌∷◌, Bytes, ok, err, true, false, ◌==◌,
  if◌then◌else◌, arith,
}
use hass_questdb_writer.Transport.{
  Response, Transport, transport, retryable, send_batch, exec_query,
}
use hass_questdb_writer.Transport.Classes.{
  IsSent, send_batch_lem, IsCertain, exec_query-IsCertain, exec_query-recovers,
}

abbrev fresh : Transport
fresh = record { connected = false; closed = 0 }

abbrev timed_out : Response
timed_out = record { status = 408; body = [] }

abbrev found : Response
found = record { status = 200; body = 123 ∷ 125 ∷ [] }

-- The second answer of a server that was away is a document.
abbrev second : ℕ → Option Response
second n = if n == 1 then some found else none

abbrev whole : Bytes → Option Bytes
whole b = some b

-- A timeout leaves open whether the batch is committed.
timed_out_raises : send_batch (97 ∷ 10 ∷ []) (some timed_out) fresh ≡ (
  err (transport (record { kind = retryable; delivery_uncertain = true; status_code = some 408 })),
  record { connected = false; closed = 1 },
)
unfolding send_batch
timed_out_raises = refl

send_batch_lem_example :
    IsSent (97 ∷ 10 ∷ []) (some timed_out) fresh (send_batch (97 ∷ 10 ∷ []) (some timed_out) fresh)
send_batch_lem_example = send_batch_lem (97 ∷ 10 ∷ []) (some timed_out) fresh

exec_query-IsCertain_example : IsCertain (exec_query whole 1 second fresh).0
exec_query-IsCertain_example = exec_query-IsCertain whole 1 second fresh

none_before : (i : ℕ) → i < 1 → second i ≡ none
none_before zero l = refl
none_before (suc i) l = absurd (omega (arith, l))

exec_query-recovers_example : (exec_query whole 1 second fresh).0 ≡ ok (123 ∷ 125 ∷ [])
exec_query-recovers_example =
    exec_query-recovers whole 1 1 second fresh found (123 ∷ 125 ∷ []) (omega arith) none_before refl
      refl refl
