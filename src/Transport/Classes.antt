-- ===== src/Transport/Classes.antt =====
-- How the answers of the server are read.
use hass_questdb_writer.Prelude.{
  ℕ, zero, suc, ◌≤◌, ◌<◌, ◌≡◌, refl, ap, [], ◌∷◌, ◌++◌, length, ltb, if◌then◌else◌, ◌+◌, ◌⊎◌, inl,
  inr, true, false, not, ◌||◌, Option, none, some, arith, Bool-cases, Option-cases, Bytes, is_empty,
  Result, ok, err, any_of,
}
use hass_questdb_writer.Transport.{
  retryable, permanent, authentication, Raised, max_error_body_bytes, TransportError, value_error,
  transport, Response, Transport, send_batch, status_error, drops_connection, ends_with_newline,
  network_error, is_success, exec_query, exec_once, is_retryable, close, get_connection,
}

-- The payload is made of lines.
abbrev pub EndsLine : Bytes → Type 0
EndsLine payload = (before : Bytes) × (payload ≡ before ++ 10 ∷ [])

abbrev pub IsAuthentication : ℕ → Type 0
IsAuthentication status = (status ≡ 401) ⊎ (status ≡ 403)

-- The server may have committed the batch.
abbrev pub IsUncertain : ℕ → Type 0
IsUncertain status = (status ≡ 408) ⊎ (500 ≤ status) × (status < 600)

-- The server refused the batch for now.
abbrev pub IsBusy : ℕ → Type 0
IsBusy status = (status ≡ 425) ⊎ (status ≡ 429)

-- The class of the error for a status, and whether the batch may be committed.
abbrev pub IsErrorOf : ℕ → TransportError → Type 0
IsErrorOf status e =
    (e.status_code ≡ some status)
    × (IsAuthentication status × (e.kind ≡ authentication) × (e.delivery_uncertain ≡ false)
        ⊎ IsUncertain status × (e.kind ≡ retryable) × (e.delivery_uncertain ≡ true)
        ⊎ IsBusy status × (e.kind ≡ retryable) × (e.delivery_uncertain ≡ false)
        ⊎ (¬ IsAuthentication status)
          × (¬ IsUncertain status)
          × (¬ IsBusy status)
          × (e.kind ≡ permanent)
          × (e.delivery_uncertain ≡ false))

abbrev pub kept : Transport → Transport
kept t = record { connected = true; closed = t.closed }

abbrev pub dropped : Transport → Transport
dropped t = record { connected = false; closed = t.closed + 1 }

-- The connection is closed exactly where `P` holds.
abbrev pub DropsIf : Type 0 → Transport → Transport → Type 0
DropsIf P t t' = P × (t' ≡ dropped t) ⊎ (¬ P) × (t' ≡ kept t)

abbrev pub IsLarge : Response → Type 0
IsLarge r = 16384 < length r.body

-- How a call ends: with a rejected payload, a network exception, a confirmed batch, or the error of
-- a status.
abbrev pub IsSent :
    Bytes → Option Response → Transport → Result Raised (Unit {0}) × Transport → Type 0
IsSent payload answer t p =
    (¬ EndsLine payload) × (p ≡ (err value_error, t))
    ⊎ EndsLine payload
      × (answer ≡ none)
      × (p ≡ (
        err (
            transport (record { kind = retryable; delivery_uncertain = true; status_code = none })),
        dropped t,
      ))
    ⊎ ((r : Response) × EndsLine payload
        × (answer ≡ some r)
        × (200 ≤ r.status)
        × (r.status < 300)
        × (p.0 ≡ ok tt)
        × DropsIf (IsLarge r) t p.1)
    ⊎ ((r : Response) × EndsLine payload
        × (answer ≡ some r)
        × (¬ ((200 ≤ r.status) × (r.status < 300)))
        × ((e : TransportError) × (p.0 ≡ err (transport e)) × IsErrorOf r.status e)
        × DropsIf (IsLarge r ⊎ IsUncertain r.status) t p.1)

ends_with_newline-EndsLine : (bs : Bytes) → ends_with_newline bs ≡ true → EndsLine bs
unfolding ends_with_newline
ends_with_newline-EndsLine [] h = absurd (cc (h))
ends_with_newline-EndsLine (b ∷ []) h = ([], ap (λ c. c ∷ []) (ground (arith, h)))
ends_with_newline-EndsLine (b ∷ c ∷ bs) h =
    let (before, e) = ends_with_newline-EndsLine (c ∷ bs) h in (b ∷ before, ap (λ l. b ∷ l) e)

EndsLine-ends_with_newline : (before : Bytes) → ends_with_newline (before ++ 10 ∷ []) ≡ true
unfolding ends_with_newline
EndsLine-ends_with_newline [] = refl
EndsLine-ends_with_newline (b ∷ []) = refl
EndsLine-ends_with_newline (b ∷ c ∷ before) = EndsLine-ends_with_newline (c ∷ before)

rejected_payload :
    (payload : Bytes)
    → is_empty payload || not (ends_with_newline payload) ≡ true
    → ¬ EndsLine payload
unfolding ends_with_newline
rejected_payload [] h ([], e) = absurd (cc (e))
rejected_payload [] h (c ∷ before, e) = absurd (cc (e))
rejected_payload (b ∷ bs) h (before, e) =
    absurd (cc (h, ap ends_with_newline e, EndsLine-ends_with_newline before))

status_error-IsErrorOf : (status : ℕ) → IsErrorOf status (status_error true status)
unfolding status_error any_of
status_error-IsErrorOf status = ground arith

close-dropped : (t : Transport) → close (get_connection t) ≡ dropped t
unfolding close get_connection
close-dropped t = refl

drops-IsLarge :
    (t : Transport) (r : Response)
    → DropsIf (IsLarge r) t (
        if ltb max_error_body_bytes (length r.body)
        then close (get_connection t)
        else get_connection t)
unfolding close get_connection
drops-IsLarge t r = ground arith

failed-DropsIf :
    (t : Transport) (r : Response)
    → DropsIf
        (IsLarge r ⊎ IsUncertain r.status)
        t
        (if drops_connection r then close (get_connection t) else get_connection t)
unfolding close get_connection drops_connection
failed-DropsIf t r = ground arith

answered-IsSent :
    (payload : Bytes) (answer : Option Response) (t : Transport)
    → is_empty payload || not (ends_with_newline payload) ≡ false
    → IsSent payload answer t (send_batch payload answer t)
unfolding send_batch
answered-IsSent payload none t good =
    rw (good, send_batch)
      (inr (inl (ends_with_newline-EndsLine payload (ground (arith, good)), refl, refl)))
answered-IsSent payload (some r) t good =
    let line : EndsLine payload = ends_with_newline-EndsLine payload (ground (arith, good)) in
    elim (Bool-cases (is_success r.status)) [
      | inl success ↦
          rw (good, success, send_batch)
            (inr (
              inr (
                inl (
                  r,
                  line,
                  refl,
                  ground (arith, success),
                  ground (arith, success),
                  refl,
                  drops-IsLarge t r,
                ))))
      | inr failed ↦
          rw (good, failed, send_batch)
            (inr (
              inr (
                inr (
                  r,
                  line,
                  refl,
                  ground (arith, failed),
                  (status_error true r.status, refl, status_error-IsErrorOf r.status),
                  failed-DropsIf t r,
                ))))
    ]

-- A batch is rejected, and nothing sent, exactly where its payload does not end with a newline. A
-- network exception leaves open whether it is committed, and closes the connection. A 2xx answer,
-- and no other, confirms it. Any other answer raises the error of its status: 401 and 403 are for the
-- credentials; 408 and 5xx are retried, and leave open whether the batch is committed; 425 and 429
-- are retried; all others are permanent. After an answer the connection is closed exactly where its
-- body is larger than 16 KiB or it leaves open what is committed.
pub send_batch_lem :
    (payload : Bytes) (answer : Option Response) (t : Transport)
    → IsSent payload answer t (send_batch payload answer t)
unfolding send_batch
send_batch_lem payload answer t =
    elim (Bool-cases (is_empty payload || not (ends_with_newline payload))) [
      | inl bad ↦ inl (rejected_payload payload bad, rw (bad, send_batch) refl)
      | inr good ↦ answered-IsSent payload answer t good
    ]

status_error-certain : (status : ℕ) → (status_error false status).delivery_uncertain ≡ false
unfolding status_error
status_error-certain status = ground arith

-- What one attempt, or all of them, may answer.
abbrev pub IsCertain : {D : Type 0} → Result TransportError D → Type 0
IsCertain {D = D} r =
    ((d : D) × (r ≡ ok d)) ⊎ ((e : TransportError) × (r ≡ err e) × (e.delivery_uncertain ≡ false))

exec_once-IsCertain :
    {D : Type 0} (document : Bytes → Option D) (answer : Option Response) (t : Transport)
    → IsCertain (exec_once document answer t).0
unfolding exec_once
exec_once-IsCertain document answer t = elim (Option-cases answer) [
  | inl none_ ↦ inr (network_error false, rw (none_, exec_once) refl, refl)
  | inr (r, some_) ↦ elim (Bool-cases (is_success r.status)) [
    | inr failed ↦ inr (
      status_error false r.status,
      rw (some_, failed, exec_once) refl,
      status_error-certain r.status,
    )
    | inl success ↦ elim (Option-cases (document r.body)) [
      | inl bad ↦ inr (
        record { kind = permanent; delivery_uncertain = false; status_code = none },
        rw (some_, success, bad, exec_once) refl,
        refl,
      )
      | inr (d, good) ↦ inl (d, rw (some_, success, good, exec_once) refl)
    ]
  ]
]

-- A query answers with a document or raises an error that is not uncertain.
pub exec_query-IsCertain :
    {D : Type 0} (document : Bytes → Option D) (retries : ℕ) (answers : ℕ → Option Response)
    (t : Transport)
    → IsCertain (exec_query document retries answers t).0
unfolding exec_query
exec_query-IsCertain document zero answers t = exec_once-IsCertain document (answers 0) t
exec_query-IsCertain document (suc retries) answers t =
    elim (exec_once-IsCertain document (answers 0) t) [
      | inl (d, e) ↦ inl (d, rw (e, exec_query) refl)
      | inr (x, e, certain) ↦ elim (Bool-cases (is_retryable x.kind)) [
        | inr final ↦ inr (x, rw (e, final, exec_query) refl, certain)
        | inl again ↦
            rw (e, again, exec_query)
              (exec_query-IsCertain document retries (λ n. answers (suc n))
                (close (exec_once document (answers 0) t).1))
      ]
    ]

-- A query whose first `k` attempts meet network exceptions, with at least `k` repetitions allowed,
-- returns the document of the next answer where that is a 2xx answer with a document.
pub exec_query-recovers :
    {D : Type 0} (document : Bytes → Option D) (k retries : ℕ) (answers : ℕ → Option Response)
    (t : Transport) (r : Response) (d : D)
    → k ≤ retries
    → ((i : ℕ) → i < k → answers i ≡ none)
    → answers k ≡ some r
    → is_success r.status ≡ true
    → document r.body ≡ some d
    → (exec_query document retries answers t).0 ≡ ok d
unfolding exec_query exec_once
exec_query-recovers document zero zero answers t r d h lost found success good =
    rw (found, success, good) refl
exec_query-recovers document zero (suc retries) answers t r d h lost found success good =
    rw (found, success, good, exec_query, exec_once) refl
exec_query-recovers document (suc k) zero answers t r d h lost found success good =
    absurd (omega (arith, h))
exec_query-recovers document (suc k) (suc retries) answers t r d h lost found success good =
    rw (lost 0 (omega arith), exec_query, exec_once)
      (exec_query-recovers document k retries (λ n. answers (suc n))
        (close (exec_once document (answers 0) t).1) r d (omega (arith, h))
        (λ i l. lost (suc i) (omega (arith, l))) found success good)
