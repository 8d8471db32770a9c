-- ===== src/Spool/Peek/Batch.antt =====
-- What `peek_batch` reads.
use hass_questdb_writer.Prelude.{
  ℕ, zero, suc, ◌+◌, ◌≤◌, ◌<◌, ◌≡◌, refl, ap, ◌∙◌, ◌⊎◌, inl, inr, true, false, none, List, [], ◌∷◌,
  length, length-take-le, take, ltb, arith, Bool-cases, ok, err, is_empty,
}
use hass_questdb_writer.Spool.Types.{batch_limit_too_small, Row, Spool}
use hass_questdb_writer.Spool.Errors.{wrapped}
use hass_questdb_writer.Spool.Peek.{take_batch, peek_batch, query}
use hass_questdb_writer.Spool.Invariant.{payload_bytes}

-- `k` rows are as many of the first rows as `max_rows` and `max_bytes` allow.
pub record Longest (max_rows max_bytes : ℕ) (rows : List Row) (k : ℕ) : Type 0 where
  pub there : k ≤ length rows
  pub few : k ≤ max_rows
  pub light : payload_bytes (take k rows) ≤ max_bytes
  pub most : (k ≡ length rows) ⊎ (k ≡ max_rows) ⊎ (max_bytes < payload_bytes (take (suc k) rows))

-- The loop stops before the first row that would overfill the batch.
Fills : ℕ → ℕ → List Row → ℕ → Type 0
Fills max_bytes used rows k =
    (k ≤ length rows)
    × (used + payload_bytes (take k rows) ≤ max_bytes)
    × (k < length rows → max_bytes < used + payload_bytes (take (suc k) rows))

take_batch_cases :
    (max_bytes used : ℕ) (rows : List Row)
    → used ≤ max_bytes
    → (k : ℕ) × (take_batch max_bytes false used rows ≡ ok (take k rows))
      × Fills max_bytes used rows k
unfolding take_batch payload_bytes Fills
take_batch_cases max_bytes used [] h =
    (0, refl, (omega arith, omega (arith, h), λ l. absurd (omega (arith, l))))
take_batch_cases max_bytes used (r ∷ rows) h =
    elim (Bool-cases (ltb max_bytes (used + length r.payload))) [
      | inl over ↦ (
        0,
        rw (over, take_batch) refl,
        (omega arith, omega (arith, h), λ l. ground (arith, over)),
      )
      | inr under ↦
          let (k, run, fills) =
            take_batch_cases max_bytes (used + length r.payload) rows (ground arith) in
          (
            suc k,
            rw (under, run, take_batch) refl,
            (
              omega (arith, fills.0),
              omega (arith, fills.1),
              λ l. omega (arith, fills.2 (omega (arith, l))),
            ),
          )
    ]

pub take-take : {A : Type 0} (k n : ℕ) (xs : List A) → k ≤ n → take k (take n xs) ≡ take k xs
take-take zero n xs h = refl
take-take (suc k) zero xs h = absurd (omega (arith, h))
take-take (suc k) (suc n) [] h = refl
take-take (suc k) (suc n) (x ∷ xs) h = ap (◌∷◌ x) (take-take k n xs (omega (arith, h)))

pub length-take-cases :
    {A : Type 0} (n : ℕ) (xs : List A)
    → ((length xs ≤ n) × (length (take n xs) ≡ length xs))
      ⊎ ((n ≤ length xs) × (length (take n xs) ≡ n))
length-take-cases zero xs = inr (omega arith, refl)
length-take-cases (suc n) [] = inl (omega arith, refl)
length-take-cases (suc n) (x ∷ xs) = elim (length-take-cases n xs) [
  | inl (h, e) ↦ inl (omega (arith, h), omega (arith, e))
  | inr (h, e) ↦ inr (omega (arith, h), omega (arith, e))
]

is_empty-take : {A : Type 0} (n : ℕ) (xs : List A) → 0 < n → is_empty (take n xs) ≡ is_empty xs
is_empty-take zero xs h = absurd (omega (arith, h))
is_empty-take (suc n) [] h = refl
is_empty-take (suc n) (x ∷ xs) h = refl

take_head :
    {A : Type 0} (n : ℕ) (xs : List A) (r : A) (rest : List A)
    → take n xs ≡ r ∷ rest
    → (more : List A) × (xs ≡ r ∷ more)
take_head zero xs r rest e = absurd (cc e)
take_head (suc n) [] r rest e = absurd (cc e)
take_head (suc n) (x ∷ xs) r rest e = (xs, ground (arith, e))

-- The first row of a batch is let in only where it is light enough alone.
take_first_cases :
    (max_bytes : ℕ) (rows : List Row)
    → ((k : ℕ) × (take_batch max_bytes true 0 rows ≡ ok (take k rows))
        × Fills max_bytes 0 rows k
        × ((is_empty rows ≡ false) → 0 < k))
      ⊎ ((r : Row) × (rest : List Row) × (rows ≡ r ∷ rest)
          × (max_bytes < length r.payload)
          × (take_batch max_bytes true 0 rows ≡ err batch_limit_too_small))
unfolding take_batch payload_bytes Fills
take_first_cases max_bytes [] =
    inl
      (0, refl, (omega arith, omega arith, λ l. absurd (omega (arith, l))), λ n. ground (arith, n))
take_first_cases max_bytes (r ∷ rest) = elim (Bool-cases (ltb max_bytes (0 + length r.payload))) [
  | inl over ↦ inr (r, rest, refl, ground (arith, over), rw (over, take_batch) refl)
  | inr under ↦
      let (k, run, fills) =
        take_batch_cases max_bytes (0 + length r.payload) rest (ground (arith, under)) in
      inl (
        suc k,
        rw (under, run, take_batch) refl,
        (
          omega (arith, fills.0),
          omega (arith, fills.1),
          λ l. omega (arith, fills.2 (omega (arith, l))),
        ),
        λ n. omega arith,
      )
]

ends_or_goes_on :
    (max_rows : ℕ) (rows : List Row) (k : ℕ)
    → k ≤ max_rows
    → k ≤ length (take max_rows rows)
    → (k ≡ length rows) ⊎ (k ≡ max_rows) ⊎ ((k < length (take max_rows rows)) × (k < max_rows))
ends_or_goes_on max_rows rows k few there = elim (length-take-cases max_rows rows) [
  | inl (h, e) ↦ ground (arith, e, h, few, there)
  | inr (h, e) ↦ ground (arith, e, h, few, there)
]

Longest-of_Fills :
    (max_rows max_bytes : ℕ) (rows : List Row) (k : ℕ)
    → Fills max_bytes 0 (take max_rows rows) k
    → (take k (take max_rows rows) ≡ take k rows) × Longest max_rows max_bytes rows k
unfolding Fills
Longest-of_Fills max_rows max_bytes rows k f =
    let cases = length-take-cases max_rows rows in
    let few : k ≤ max_rows = omega (arith, f.0, length-take-le max_rows rows) in
    let read = take-take k max_rows rows few in
    (
      read,
      record {
        there = elim cases [
          | inl (h, e) ↦ omega (arith, f.0, e)
          | inr (h, e) ↦ omega (arith, few, h)
        ];
        few = few;
        light = omega (arith, f.1, ap payload_bytes read);
        most = elim (ends_or_goes_on max_rows rows k few f.0) [
          | inl e ↦ inl e
          | inr (inl e) ↦ inr (inl e)
          | inr (inr (inside, m)) ↦ inr (
              inr (omega (arith, f.2 inside, ap payload_bytes (take-take (suc k) max_rows rows m))))
        ];
      },
    )

abbrev pub PeekedLongest : ℕ → ℕ → Spool → Type 0
PeekedLongest max_rows max_bytes s =
    (k : ℕ) × (peek_batch none max_rows max_bytes s ≡ ok (take k s.db.pending))
    × Longest max_rows max_bytes s.db.pending k
    × ((is_empty s.db.pending ≡ true) ⊎ (0 < k))

abbrev pub FirstTooLarge : ℕ → ℕ → Spool → Type 0
FirstTooLarge max_rows max_bytes s =
    (r : Row) × (rest : List Row) × (s.db.pending ≡ r ∷ rest)
    × (max_bytes < length r.payload)
    × (peek_batch none max_rows max_bytes s ≡ err batch_limit_too_small)

-- On an open spool whose storage works, a batch is the longest prefix of the queue within both
-- limits, and not empty unless the queue is; a first row too large for `max_bytes` raises.
pub peek_batch_lem :
    (max_rows max_bytes : ℕ) (s : Spool)
    → s.is_open ≡ true
    → 0 < max_rows
    → 0 < max_bytes
    → PeekedLongest max_rows max_bytes s ⊎ FirstTooLarge max_rows max_bytes s
unfolding peek_batch query wrapped
peek_batch_lem max_rows max_bytes s open_ a b =
    elim (take_first_cases max_bytes (take max_rows s.db.pending)) [
      | inl (k, run, fills, some_) ↦
          let (read, longest) = Longest-of_Fills max_rows max_bytes s.db.pending k fills in
          let some_first : (is_empty s.db.pending ≡ true) ⊎ (0 < k) =
            elim (Bool-cases (is_empty s.db.pending)) [
              | inl e ↦ inl e
              | inr e ↦ inr (some_ (is_empty-take max_rows s.db.pending a ∙ e))
            ] in
          inl (k, ground (arith, open_, a, b, run, read), longest, some_first)
      | inr (r, rest, e, heavy, run) ↦
          let (more, whole) = take_head max_rows s.db.pending r rest e in
          inr (r, more, whole, heavy, ground (arith, open_, a, b, run))
    ]
