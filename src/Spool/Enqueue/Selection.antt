-- ===== src/Spool/Enqueue/Selection.antt =====
-- Which events of a batch are inserted: `distinct` and `new_events`.
use hass_questdb_writer.Prelude.{
  ℕ, ◌≤◌, ◌≡◌, refl, sym, ◌⊎◌, inl, inr, Bool, true, false, none, some, List, [], ◌∷◌, ◌++◌, length,
  any_of, find_by, find_by-eq-none, arith, All, All-append, All-Member, All-of_Member, Member, ℤ,
  text_eq, text_eq_iff, eq_ℤ_iff, is_empty, ok, Option-cases, Bool-cases,
}
use hass_questdb_writer.Spool.Types.{NewEvent, Db, Limits}
use hass_questdb_writer.Spool.Table.{same_event, same_dead_event}
use hass_questdb_writer.Spool.Transaction.{validate_events}
use hass_questdb_writer.Spool.Enqueue.{same_content, distinct, existing, new_events}
use hass_questdb_writer.Spool.Enqueue.Inserts.{Distinct, IsFresh}

-- What the argument checks establish of an event.
pub record IsValid (limits : Limits) (e : NewEvent) : Type 0 where
  pub has_id : is_empty e.event_id ≡ false
  pub has_payload : is_empty e.payload ≡ false
  pub fits : length e.payload ≤ limits.max_event_bytes

pub validate_events-IsValid :
    (limits : Limits) (es : List NewEvent)
    → validate_events limits es ≡ ok tt
    → All (IsValid limits) es
unfolding validate_events
validate_events-IsValid limits [] h = tt
validate_events-IsValid limits (e ∷ es) h = (
  record { has_id = ground arith; has_payload = ground arith; fits = ground arith },
  validate_events-IsValid limits es (ground arith),
)

Distinct-snoc :
    (seen : List NewEvent) (e : NewEvent)
    → Distinct seen
    → any_of (λ p. text_eq p.event_id e.event_id) seen ≡ false
    → Distinct (seen ++ e ∷ [])
unfolding any_of
Distinct-snoc [] e d h = (tt, tt)
Distinct-snoc (p ∷ ps) e d h = (
  All-append (λ q. text_eq p.event_id q.event_id ≡ false) ps (e ∷ []) d.0 (ground arith, tt),
  Distinct-snoc ps e d.1 (ground arith),
)

Member-snoc : (e p : NewEvent) (seen : List NewEvent) → Member e seen → Member e (seen ++ p ∷ [])
Member-snoc e p (x ∷ xs) (inl h) = inl h
Member-snoc e p (x ∷ xs) (inr m) = inr (Member-snoc e p xs m)
Member-snoc e p [] m = absurd m

Member-last : (e : NewEvent) (seen : List NewEvent) → Member e (seen ++ e ∷ [])
Member-last e [] = inl refl
Member-last e (x ∷ xs) = inr (Member-last e xs)

Member-of_snoc :
    (e p : NewEvent) (seen : List NewEvent) → Member e (seen ++ p ∷ []) → Member e seen ⊎ (e ≡ p)
Member-of_snoc e p [] (inl q) = inr q
Member-of_snoc e p [] (inr m) = elim m [ ]
Member-of_snoc e p (x ∷ xs) (inl q) = inl (inl q)
Member-of_snoc e p (x ∷ xs) (inr m) = elim (Member-of_snoc e p xs m) [
  | inl k ↦ inl (inr k)
  | inr q ↦ inr q
]

-- A search that succeeds found a member that passes the test.
pub find_by-Member :
    {A : Type 0} (test : A → Bool) (xs : List A) (x : A)
    → find_by test xs ≡ some x
    → (test x ≡ true) × Member x xs
unfolding find_by
find_by-Member test [] x h = absurd (ground arith)
find_by-Member test (y ∷ ys) x h = elim (Bool-cases (test y)) [
  | inl e ↦ let same : y ≡ x = ground arith in (rw (← same) e, inl (sym same))
  | inr e ↦ let ih = find_by-Member test ys x (ground arith) in (ih.0, inr ih.1)
]

pub same_content-eq :
    (p e : NewEvent)
    → text_eq p.event_id e.event_id ≡ true
    → same_content p.payload p.created_ns e ≡ true
    → e ≡ p
same_content-eq p e i c = ground (
  arith,
  text_eq_iff p.event_id e.event_id,
  text_eq_iff p.payload e.payload,
  eq_ℤ_iff p.created_ns e.created_ns,
)

-- What `distinct` hands on, from the events `seen` before.
pub record Selected (limits : Limits) (seen es values : List NewEvent) : Type 0 where
  pub distinct : Distinct values
  pub valid : All (IsValid limits) values
  pub keeps : (e : NewEvent) → Member e seen → Member e values
  pub covers : (e : NewEvent) → Member e es → Member e values
  pub members : (e : NewEvent) → Member e values → Member e seen ⊎ Member e es

-- Each event of the batch stands in the selection, no two of which share an ID.
pub distinct-Selected :
    (limits : Limits) (seen es values : List NewEvent)
    → All (IsValid limits) es
    → All (IsValid limits) seen
    → Distinct seen
    → distinct seen es ≡ ok values
    → Selected limits seen es values
unfolding distinct
distinct-Selected limits seen [] values v w d h =
    let same : seen ≡ values = ground arith in
    rw (← same) (record {
      distinct = d;
      valid = w;
      keeps = λ e m. m;
      covers = λ e m. absurd m;
      members = λ e m. inl m;
    })
distinct-Selected limits seen (e ∷ es) values v w d h =
    elim (Option-cases (find_by (λ p. text_eq p.event_id e.event_id) seen)) [
      | inl f ↦
          let ih =
            distinct-Selected limits (seen ++ e ∷ []) es values v.1
              (All-append (IsValid limits) seen (e ∷ []) w (v.0, tt))
              (Distinct-snoc seen e d (find_by-eq-none (λ p. text_eq p.event_id e.event_id) seen f))
              (ground (arith, f)) in
          record {
            distinct = ih.distinct;
            valid = ih.valid;
            keeps = λ p m. ih.keeps p (Member-snoc p e seen m);
            covers = λ p m. elim m [
              | inl q ↦ ih.keeps p (rw q (Member-last e seen))
              | inr k ↦ ih.covers p k
            ];
            members = λ p m. elim (ih.members p m) [
              | inr k ↦ inr (inr k)
              | inl k ↦ elim (Member-of_snoc p e seen k) [ inl l ↦ inl l | inr q ↦ inr (inl q) ]
            ];
          }
      | inr (p, f) ↦
          let found = find_by-Member (λ q. text_eq q.event_id e.event_id) seen p f in
          let same : e ≡ p = same_content-eq p e found.0 (ground (arith, f)) in
          let ih = distinct-Selected limits seen es values v.1 w d (ground (arith, f)) in
          record {
            distinct = ih.distinct;
            valid = ih.valid;
            keeps = ih.keeps;
            covers =
                λ q m. elim m [ inl i ↦ ih.keeps q (rw (i, same) found.1) | inr k ↦ ih.covers q k ];
            members = λ q m. elim (ih.members q m) [ inl k ↦ inl k | inr k ↦ inr (inr k) ];
          }
    ]

-- An event whose ID stands in a table with the content of the event.
abbrev pub Stored : Db → NewEvent → Type 0
Stored d e = existing d e.event_id ≡ some (e.payload, e.created_ns)

-- What `new_events` hands on.
pub record IsChosen (d : Db) (values fresh : List NewEvent) : Type 0 where
  pub all_fresh : All (IsFresh d) fresh
  pub distinct : Distinct fresh
  pub members : (e : NewEvent) → Member e fresh → Member e values
  pub covers : (e : NewEvent) → Member e values → Stored d e ⊎ Member e fresh

existing-none :
    (d : Db) (i : List ℕ)
    → existing d i ≡ none
    → (any_of (same_event i) d.pending ≡ false) × (any_of (same_dead_event i) d.dead_letter ≡ false)
unfolding existing
existing-none d i h = (
  find_by-eq-none (same_event i) d.pending (ground arith),
  find_by-eq-none (same_dead_event i) d.dead_letter (ground arith),
)

new_events-none_inversion :
    (d : Db) (e : NewEvent) (es fresh : List NewEvent)
    → existing d e.event_id ≡ none
    → new_events d (e ∷ es) ≡ ok fresh
    → (rest : List NewEvent) × (new_events d es ≡ ok rest) × (fresh ≡ e ∷ rest)
unfolding new_events
new_events-none_inversion d e es fresh f h = ground (arith, f)

new_events-some_inversion :
    (d : Db) (e : NewEvent) (es fresh : List NewEvent) (payload : List ℕ) (created_ns : ℤ)
    → existing d e.event_id ≡ some (payload, created_ns)
    → new_events d (e ∷ es) ≡ ok fresh
    → (new_events d es ≡ ok fresh) × Stored d e
unfolding new_events
new_events-some_inversion d e es fresh payload created_ns f h =
    ground (arith, f, text_eq_iff payload e.payload, eq_ℤ_iff created_ns e.created_ns)

-- The chosen events are new to both tables, and the others are stored already.
pub new_events-IsChosen :
    (limits : Limits) (d : Db) (values fresh : List NewEvent)
    → All (IsValid limits) values
    → Distinct values
    → new_events d values ≡ ok fresh
    → IsChosen d values fresh
unfolding new_events
new_events-IsChosen limits d [] fresh v n h =
    let same : [] ≡ fresh = ground arith in
    rw (← same)
      (record { all_fresh = tt; distinct = tt; members = λ e m. m; covers = λ e m. absurd m })
new_events-IsChosen limits d (e ∷ es) fresh v n h = elim (Option-cases (existing d e.event_id)) [
  | inl f ↦
      let (rest, chosen, same) = new_events-none_inversion d e es fresh f h in
      let ih = new_events-IsChosen limits d es rest v.1 n.1 chosen in
      let gone = existing-none d e.event_id f in
      rw same (record {
        all_fresh = (
          record {
            has_id = v.0.has_id;
            has_payload = v.0.has_payload;
            not_pending = gone.0;
            not_dead = gone.1;
          },
          ih.all_fresh,
        );
        distinct = (
          All-of_Member (λ p. text_eq e.event_id p.event_id ≡ false) rest
              (λ p m.
                All-Member (λ p. text_eq e.event_id p.event_id ≡ false) p es n.0 (ih.members p m)),
          ih.distinct,
        );
        members = λ p m. elim m [ inl q ↦ inl q | inr k ↦ inr (ih.members p k) ];
        covers = λ p m. elim m [
          | inl q ↦ inr (inl q)
          | inr k ↦ elim (ih.covers p k) [ inl s ↦ inl s | inr l ↦ inr (inr l) ]
        ];
      })
  | inr ((payload, created_ns), f) ↦
      let (chosen, stored) = new_events-some_inversion d e es fresh payload created_ns f h in
      let ih = new_events-IsChosen limits d es fresh v.1 n.1 chosen in
      record {
        all_fresh = ih.all_fresh;
        distinct = ih.distinct;
        members = λ p m. inr (ih.members p m);
        covers = λ p m. elim m [ inl q ↦ inl (rw q stored) | inr k ↦ ih.covers p k ];
      }
]
