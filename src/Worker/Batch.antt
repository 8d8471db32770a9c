-- ===== src/Worker/Batch.antt =====
-- What the loop of `_build_batch` of custom_components/hass_questdb_writer/worker.py puts into a
-- batch.
use mathlib.Core.Path.{subst}
use mathlib.Core.List.{append-nil}
use hass_questdb_writer.Event.{Envelope, to_ilp}
use hass_questdb_writer.Event.Rows.{to_ilp-newline}
use hass_questdb_writer.Prelude.{
  ℕ, suc, ◌+◌, ◌≤◌, ◌≡◌, refl, ap, ◌≢◌, Bool, true, false, Option, none, some, List, [], ◌∷◌, ◌++◌,
  map, length, take, keep, ltb, arith, if◌then◌else◌, Text, Bytes, is_empty, Result, ok, err,
  Result-cases, length-append, Bool-cases, Option-cases, inl, inr, ◌⊎◌,
}
use hass_questdb_writer.Spool.Types.{Row}
use hass_questdb_writer.Transport.{
  Transport, Response, value_error, send_batch, ends_with_newline, is_success,
}
use hass_questdb_writer.Ilp.Encoded.{ends_with_newline-append}
use hass_questdb_writer.Worker.Accounting.{if_both, if_cases}
use hass_questdb_writer.Worker.Deliver.{
  BuiltBatch, Collected, built, unencodable, too_large, no_batch, prepend, collect,
}

-- The encodings of rows, one behind the other; `none` where one has none.
abbrev behind : Result Text Bytes → Option Bytes → Option Bytes
behind (ok b) (some bs) = some (b ++ bs)
behind _ _ = none

unfoldable pub encode_all : (Bytes → Result Text Bytes) → List Row → Option Bytes
encode_all encode [] = some []
encode_all encode (r ∷ rs) = behind (encode r.payload) (encode_all encode rs)

abbrev pub sequences_of : List Row → List ℕ
sequences_of = map (λ r. r.sequence)

-- A batch of the first rows, within the limit behind `used` bytes.
abbrev pub IsBatch : ℕ → (Bytes → Result Text Bytes) → ℕ → List Row → BuiltBatch → Type 0
IsBatch limit encode used rs b =
    (n : ℕ) × (encode_all encode (take n rs) ≡ some b.payload)
    × (b.sequences ≡ sequences_of (take n rs))
    × (b.uncertain_sequences ≡ sequences_of (keep (λ r. r.delivery_uncertain) (take n rs)))
    × (used + length b.payload ≤ limit)

abbrev IsCollected : ℕ → (Bytes → Result Text Bytes) → ℕ → List Row → Collected → Type 0
IsCollected limit encode used rs (built b) = IsBatch limit encode used rs b
IsCollected limit encode used rs _ = Unit {0}

no_batch-IsBatch :
    (limit : ℕ) (encode : Bytes → Result Text Bytes) (used : ℕ) (rs : List Row)
    → used ≤ limit
    → IsBatch limit encode used rs no_batch
unfolding encode_all keep
no_batch-IsBatch limit encode used rs h = (0, refl, refl, refl, omega arith)

uncertain_first :
    (test : Bool) (r : Row) (us : List ℕ) (rs : List Row)
    → us ≡ sequences_of rs
    → (if test then r.sequence ∷ us else us) ≡ sequences_of (if test then r ∷ rs else rs)
uncertain_first true r us rs h = ap (◌∷◌ r.sequence) h
uncertain_first false r us rs h = h

prepend-IsCollected :
    (limit : ℕ) (encode : Bytes → Result Text Bytes) (used : ℕ) (r : Row) (encoded : Bytes)
    (rs : List Row) (c : Collected)
    → encode r.payload ≡ ok encoded
    → IsCollected limit encode (used + length encoded) rs c
    → IsCollected limit encode used (r ∷ rs) (prepend r encoded c)
unfolding encode_all keep
prepend-IsCollected limit encode used r encoded rs (unencodable q t) e h = tt
prepend-IsCollected limit encode used r encoded rs too_large e h = tt
prepend-IsCollected limit encode used r encoded rs (built b) e (n, all, seqs, uncertain, fits) = (
  suc n,
  rw (e, all) refl,
  ap (◌∷◌ r.sequence) seqs,
  uncertain_first r.delivery_uncertain r b.uncertain_sequences _ uncertain,
  omega (arith, length-append encoded b.payload, fits),
)

collect-IsCollected :
    (limit : ℕ) (encode : Bytes → Result Text Bytes) (first : Bool) (used : ℕ) (rs : List Row)
    → used ≤ limit
    → IsCollected limit encode used rs (collect limit encode first used rs)
unfolding collect
collect-IsCollected limit encode first used [] h = no_batch-IsBatch limit encode used [] h
collect-IsCollected limit encode first used (r ∷ rs) h = elim (Result-cases (encode r.payload)) [
  | inr (error, e) ↦
      rw (e, collect)
        (if_both (IsCollected limit encode used (r ∷ rs)) first (unencodable r error)
          (built no_batch) tt (no_batch-IsBatch limit encode used (r ∷ rs) h))
  | inl (encoded, e) ↦
      rw (e, collect)
        (if_cases (IsCollected limit encode used (r ∷ rs)) (ltb limit (used + length encoded)) _ _
          (λ _.
            if_both (IsCollected limit encode used (r ∷ rs)) first too_large (built no_batch) tt
              (no_batch-IsBatch limit encode used (r ∷ rs) h))
          (λ f. prepend-IsCollected limit encode used r encoded rs _ e (
            collect-IsCollected limit encode false (used + length encoded) rs (ground (arith, f)))))
]

-- A batch that the loop of `_build_batch` builds holds the encodings of the first records, one
-- behind the other, with their sequence numbers and those of the uncertain ones among them, in
-- order, and is no larger than `delivery_batch_bytes`.
pub collect-IsBatch :
    (limit : ℕ) (encode : Bytes → Result Text Bytes) (rs : List Row) (b : BuiltBatch)
    → collect limit encode true 0 rs ≡ built b
    → IsBatch limit encode 0 rs b
collect-IsBatch limit encode rs b e =
    subst (IsCollected limit encode 0 rs) e
      (collect-IsCollected limit encode true 0 rs (omega arith))

encode_all-newline :
    (encode : Bytes → Result Text Bytes) (rs : List Row) (payload : Bytes)
    → ((p b : Bytes) → encode p ≡ ok b → ends_with_newline b ≡ true)
    → encode_all encode rs ≡ some payload
    → (rs ≡ []) ⊎ (ends_with_newline payload ≡ true)
unfolding encode_all
encode_all-newline encode [] payload h e = inl refl
encode_all-newline encode (r ∷ rs) payload h e = elim (Result-cases (encode r.payload)) [
  | inr (x, f) ↦ absurd (cc (e, f))
  | inl (b, f) ↦ elim (Option-cases (encode_all encode rs)) [
    | inl g ↦ absurd (cc (e, f, g))
    | inr (bs, g) ↦
        let w : payload ≡ b ++ bs = cc (e, f, g) in
        inr (
          rw w (elim (encode_all-newline encode rs bs h g) [
            | inl gone ↦
                let v : bs ≡ [] = cc (g, ap (encode_all encode) gone) in
                rw (v, append-nil b) (h r.payload b f)
            | inr ends ↦ ends_with_newline-append b bs ends
          ]))
  ]
]

send_batch-newline :
    (payload : Bytes) (answer : Option Response) (t : Transport)
    → ends_with_newline payload ≡ true
    → (send_batch payload answer t).0 ≢ err value_error
unfolding send_batch ends_with_newline
send_batch-newline [] answer t h = absurd (cc (h))
send_batch-newline (c ∷ payload) none t h = rw h λ e. absurd (cc (e))
send_batch-newline (c ∷ payload) (some r) t h = rw h (elim (Bool-cases (is_success r.status)) [
  | inl e ↦ rw e λ f. absurd (cc (f))
  | inr e ↦ rw e λ f. absurd (cc (f))
])

-- What the loop of `_build_batch` builds of rows that `to_ilp` encoded, where it is not empty, is
-- never rejected by `send_batch` as an argument, whatever the server answers.
pub collect-send_batch :
    (limit : ℕ) (encode : Bytes → Result Text Bytes) (table : Text) (rs : List Row) (b : BuiltBatch)
    (answer : Option Response) (t : Transport)
    → ((p row : Bytes) → encode p ≡ ok row → (e : Envelope) × (to_ilp table e ≡ ok row))
    → collect limit encode true 0 rs ≡ built b
    → is_empty b.sequences ≡ false
    → (send_batch b.payload answer t).0 ≢ err value_error
collect-send_batch limit encode table rs b answer t sound e full =
    let (n, all, seqs, _, _) = collect-IsBatch limit encode rs b e in
    elim (encode_all-newline encode (take n rs) b.payload
      (λ p row f. let (v, g) = sound p row f in to_ilp-newline table v row g) all) [
        | inl gone ↦ absurd (cc (full, seqs, gone))
        | inr ends ↦ send_batch-newline b.payload answer t ends
      ]
