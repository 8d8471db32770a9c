-- ===== src/Transport.antt =====
-- The requests of `IlpHttpTransport` of custom_components/hass_questdb_writer/transport.py. The
-- server's answer to a request is an argument: `none` stands for a network exception. Messages,
-- headers and URLs are not modelled.

pub mod Classes
mod Tests
use hass_questdb_writer.Prelude.{
  ℕ, zero, suc, ◌+◌, ◌*◌, Bool, true, false, not, ◌&&◌, ◌||◌, Option, none, some, List, [], ◌∷◌,
  length, ltb, leb, ◌==◌, any_of, if◌then◌else◌, Bytes, is_empty, Result, ok, err,
}

pub data Kind : Type 0 where
  authentication retryable permanent : Kind

-- `IlpTransportError`
pub record TransportError : Type 0 where
  pub kind : Kind
  pub delivery_uncertain : Bool
  pub status_code : Option ℕ

-- What `send_batch` and `exec_query` raise: a rejected argument, or a transport error.
pub data Raised : Type 0 where
  value_error : Raised
  transport : TransportError → Raised

pub record Response : Type 0 where
  pub status : ℕ
  pub body : Bytes

-- `IlpHttpTransport`: whether a connection is kept, and how many were closed.
pub record Transport : Type 0 where
  pub connected : Bool
  pub closed : ℕ

abbrev pub max_error_body_bytes : ℕ
max_error_body_bytes = 16 * 1024

-- `_get_connection`
unfoldable pub get_connection : Transport → Transport
get_connection t = record t { connected = true }

-- `close`
unfoldable pub close : Transport → Transport
close t = if t.connected then record { connected = false; closed = t.closed + 1 } else t

abbrev pub is_success : ℕ → Bool
is_success status = leb 200 status && ltb status 300

abbrev pub is_server_error : ℕ → Bool
is_server_error status = leb 500 status && ltb status 600

-- The exception for a status outside 2xx; `uncertain` holds where the request may be committed.
unfoldable pub status_error : Bool → ℕ → TransportError
unfolding any_of
status_error uncertain status =
    if any_of (λ c. c == status) (401 ∷ 403 ∷ [])
    then record { kind = authentication; delivery_uncertain = false; status_code = some status }
    else if any_of (λ c. c == status) (408 ∷ 425 ∷ 429 ∷ [])
    then record {
      kind = retryable;
      delivery_uncertain = uncertain && (status == 408);
      status_code = some status;
    }
    else if is_server_error status
    then record { kind = retryable; delivery_uncertain = uncertain; status_code = some status }
    else record { kind = permanent; delivery_uncertain = false; status_code = some status }

-- Whether the connection is closed after an answer outside 2xx.
unfoldable pub drops_connection : Response → Bool
drops_connection r =
    ltb max_error_body_bytes (length r.body) || (r.status == 408) || is_server_error r.status

abbrev pub network_error : Bool → TransportError
network_error uncertain = record {
  kind = retryable;
  delivery_uncertain = uncertain;
  status_code = none;
}

unfoldable pub ends_with_newline : Bytes → Bool
ends_with_newline [] = false
ends_with_newline (b ∷ bs) = if is_empty bs then b == 10 else ends_with_newline bs

-- `send_batch`
unfoldable pub send_batch :
    Bytes → Option Response → Transport → Result Raised (Unit {0}) × Transport
unfolding get_connection close status_error drops_connection ends_with_newline
send_batch payload answer t =
    if is_empty payload || not (ends_with_newline payload)
    then (err value_error, t)
    else let t' = get_connection t in
      elim answer [
        | none ↦ (err (transport (network_error true)), close t')
        | some r ↦
            if is_success r.status
            then (ok tt, if ltb max_error_body_bytes (length r.body) then close t' else t')
            else (
              err (transport (status_error true r.status)),
              if drops_connection r then close t' else t',
            )
      ]

-- `_exec_query_on_current_connection`: `document` is what `json.loads` makes of a body, `none`
-- where that fails or is no object.
unfoldable pub exec_once :
    {D : Type 0}
    → (Bytes → Option D)
    → Option Response
    → Transport
    → Result TransportError D × Transport
unfolding get_connection close status_error drops_connection
exec_once document answer t =
    let t' = get_connection t in
    elim answer [
      | none ↦ (err (network_error false), close t')
      | some r ↦
          if is_success r.status
          then (
            elim (document r.body) [
              | some d ↦ ok d
              | none ↦
                  err (record { kind = permanent; delivery_uncertain = false; status_code = none })
            ],
            if ltb max_error_body_bytes (length r.body) then close t' else t',
          )
          else (err (status_error false r.status), if drops_connection r then close t' else t')
    ]

abbrev pub is_retryable : Kind → Bool
is_retryable retryable = true
is_retryable _ = false

-- The loop of `exec_query`, with `retries` repetitions left: `answers` are the server's answers
-- in turn, a network exception where one is `none`.
unfoldable pub exec_query :
    {D : Type 0}
    → (Bytes → Option D)
    → ℕ
    → (ℕ → Option Response)
    → Transport
    → Result TransportError D × Transport
unfolding exec_once
exec_query document zero answers t = exec_once document (answers 0) t
exec_query document (suc retries) answers t =
    let (r, t') = exec_once document (answers 0) t in
    let again = exec_query document retries (λ n. answers (suc n)) (close t') in
    elim r [ ok d ↦ (ok d, t') | err e ↦ if is_retryable e.kind then again else (err e, t') ]
