-- ===== src/Runtime/Conversion.antt =====
-- What the `try` block of `_async_state_changed` of custom_components/hass_questdb_writer/runtime.py
-- makes of a state: the fields of its envelope, and the attributes that the filter lets pass.
use mathlib.Core.Path.{subst}
use hass_questdb_writer.Prelude.{
  ◌≡◌, refl, sym, ap, ◌∙◌, true, false, Option, none, some, List, [], ◌∷◌, Text, ℤ, Result, ok, err,
}
use hass_questdb_writer.Prelude.Partial.{◌>>=◌}
use hass_questdb_writer.Prelude.Fallible.{bind-ok}
use hass_questdb_writer.Event.{
  Codec, Envelope, EnvelopeError, bad_entity_id, bad_attributes, post_init, check, check_string,
  check_context, timestamp_ns, partition, has_both, is_object,
}
use hass_questdb_writer.AttributeFilter.{AttributeFilter, passes}
use hass_questdb_writer.AttributeFilter.Allowed.{
  IsAllowed, Filters, ends, takes, drops, passes-IsAllowed, IsAllowed-passes, keep-Filters,
  Filters-keep,
}
use hass_questdb_writer.Runtime.{
  datetime_to_epoch_ns, State, Surroundings, without_error, kept_attributes, convert,
}
use hass_questdb_writer.Runtime.Times.{IsTime, datetime-IsTime, IsTime-datetime}

-- The envelope has the state's fields, the next ID and time, and the JSON of the attributes that the
-- filter lets pass.
pub record IsEnvelopeOf {V : Type 0} (env : Surroundings V) (s : State V) (e : Envelope)
    : Type 0 where
  pub event_id : e.event_id ≡ env.event_id
  pub entity_id : e.entity_id ≡ s.entity_id
  pub state : e.state ≡ s.state
  pub attributes :
      (kept : List (Text × V)) × Filters
        (λ p. IsAllowed env.fnmatchcase env.attribute_filter p.0)
        s.attributes
        kept
      × (env.json_dumps kept ≡ some e.attributes_json)
  pub ingested_at : e.ingested_at_ns ≡ env.wall_time_ns
  pub last_changed : IsTime s.last_changed e.last_changed_ns
  pub last_updated : IsTime s.last_updated e.last_updated_ns
  pub context_id : e.context_id ≡ s.context_id

-- The checks of an envelope leave it as it is.
post_init_same : (json : Codec) (e e' : Envelope) → post_init json e ≡ ok e' → e ≡ e'
unfolding post_init
post_init_same json e e' h =
    let (_, _, h1) = bind-ok (check_string e.event_id false) _ e' h in
    let (_, _, h2) = bind-ok (check_string e.entity_id false) _ e' h1 in
    let (_, _, h3) =
      bind-ok (check (has_both (partition b'.' e.entity_id)) bad_entity_id) _ e' h2 in
    let (_, _, h4) = bind-ok (check_string e.state true) _ e' h3 in
    let (_, _, h5) = bind-ok (check_string e.attributes_json false) _ e' h4 in
    let (_, _, h6) =
      bind-ok (check (is_object (json.loads e.attributes_json)) bad_attributes) _ e' h5 in
    let (_, _, h7) = bind-ok (timestamp_ns e.ingested_at_ns) _ e' h6 in
    let (_, _, h8) = bind-ok (timestamp_ns e.last_changed_ns) _ e' h7 in
    let (_, _, h9) = bind-ok (timestamp_ns e.last_updated_ns) _ e' h8 in
    let (_, _, h10) = bind-ok (check_context e.context_id) _ e' h9 in cc (h10)

module _ {V : Type 0} (env : Surroundings V) (s : State V) where
  abbrev Passes : Text × V → Type 0
  Passes p = IsAllowed env.fnmatchcase env.attribute_filter p.0

  everything_Filters :
      (P : Text × V → Type 0) → ((p : Text × V) → P p) → (xs : List (Text × V)) → Filters P xs xs
  everything_Filters P h [] = ends
  everything_Filters P h (x ∷ xs) = takes (h x) (everything_Filters P h xs)

  Filters-everything :
      (P : Text × V → Type 0)
      → ((p : Text × V) → P p)
      → {xs ys : List (Text × V)} → Filters P xs ys
      → xs ≡ ys
  Filters-everything P h ends = refl
  Filters-everything P h (takes {x = x} p f) = ap (λ l. x ∷ l) (Filters-everything P h f)
  Filters-everything P h (drops {x = x} p f) = absurd (p (h x))

  kept-Filters_by :
      (o : Option AttributeFilter) (attributes : List (Text × V))
      → Filters
          (λ p. IsAllowed env.fnmatchcase o p.0)
          attributes
          (kept_attributes (record env { attribute_filter = o }) attributes)
  unfolding kept_attributes
  kept-Filters_by none attributes =
      everything_Filters (λ p. IsAllowed env.fnmatchcase none p.0) (λ _. tt) attributes
  kept-Filters_by (some f) attributes =
      keep-Filters (λ p. IsAllowed env.fnmatchcase (some f) p.0) (λ p. passes env.fnmatchcase f p.0)
        (λ p. passes-IsAllowed env.fnmatchcase f p.0) (λ p. IsAllowed-passes env.fnmatchcase f p.0)
        attributes

  Filters-kept_by :
      (o : Option AttributeFilter) (attributes kept : List (Text × V))
      → Filters (λ p. IsAllowed env.fnmatchcase o p.0) attributes kept
      → kept_attributes (record env { attribute_filter = o }) attributes ≡ kept
  unfolding kept_attributes
  Filters-kept_by none attributes kept h =
      Filters-everything (λ p. IsAllowed env.fnmatchcase none p.0) (λ _. tt) h
  Filters-kept_by (some f) attributes kept h =
      Filters-keep (λ p. IsAllowed env.fnmatchcase (some f) p.0) (λ p. passes env.fnmatchcase f p.0)
        (λ p. passes-IsAllowed env.fnmatchcase f p.0) (λ p. IsAllowed-passes env.fnmatchcase f p.0)
        h

  -- The envelope of its three parts that may fail.
  abbrev assembled : Text → ℤ → ℤ → Envelope
  assembled attributes_json last_changed_ns last_updated_ns = record {
    event_id = env.event_id;
    entity_id = s.entity_id;
    state = s.state;
    attributes_json = attributes_json;
    ingested_at_ns = env.wall_time_ns;
    last_changed_ns = last_changed_ns;
    last_updated_ns = last_updated_ns;
    context_id = s.context_id;
  }

  abbrev attempt : Option Text → Option ℤ → Option ℤ → Option Envelope
  attempt a b c = do
    attributes_json ← a
    last_changed_ns ← b
    last_updated_ns ← c
    without_error (post_init env.json (assembled attributes_json last_changed_ns last_updated_ns))

  without_error_cases :
      (r : Result EnvelopeError Envelope) (e : Envelope) → without_error r ≡ some e → r ≡ ok e
  without_error_cases (ok x) e h = ap ok (cc (h))
  without_error_cases (err x) e h = absurd (cc (h))

  attempt_cases :
      (a : Option Text) (b c : Option ℤ) (e : Envelope)
      → attempt a b c ≡ some e
      → (j : Text) × (m : ℤ) × (n : ℤ) × (a ≡ some j)
        × (b ≡ some m)
        × (c ≡ some n)
        × (post_init env.json (assembled j m n) ≡ ok e)
  attempt_cases none b c e h = absurd (cc (h))
  attempt_cases (some j) none c e h = absurd (cc (h))
  attempt_cases (some j) (some m) none e h = absurd (cc (h))
  attempt_cases (some j) (some m) (some n) e h =
      (j, m, n, refl, refl, refl, without_error_cases (post_init env.json (assembled j m n)) e h)

  pub convert-IsEnvelopeOf :
      (e : Envelope) → convert env s ≡ some e → IsEnvelopeOf env s e × (post_init env.json e ≡ ok e)
  unfolding convert
  convert-IsEnvelopeOf e h =
      let (j, m, n, f, g, k, p) =
        attempt_cases (env.json_dumps (kept_attributes env s.attributes))
          (datetime_to_epoch_ns s.last_changed) (datetime_to_epoch_ns s.last_updated) e h in
      let same : assembled j m n ≡ e = post_init_same env.json (assembled j m n) e p in
      subst (λ x. IsEnvelopeOf env s x × (post_init env.json x ≡ ok x)) same
        (
          record {
            event_id = refl;
            entity_id = refl;
            state = refl;
            attributes = (
              kept_attributes env s.attributes,
              kept-Filters_by env.attribute_filter s.attributes,
              f,
            );
            ingested_at = refl;
            last_changed = datetime-IsTime s.last_changed m g;
            last_updated = datetime-IsTime s.last_updated n k;
            context_id = refl;
          },
          p ∙ ap ok (sym same),
        )

  pub IsEnvelopeOf-convert :
      (e : Envelope) → IsEnvelopeOf env s e → post_init env.json e ≡ ok e → convert env s ≡ some e
  unfolding convert
  IsEnvelopeOf-convert e v p =
      let (kept, f, j) = v.attributes in
      rw
        (
          Filters-kept_by env.attribute_filter s.attributes kept f,
          j,
          IsTime-datetime s.last_changed e.last_changed_ns v.last_changed,
          IsTime-datetime s.last_updated e.last_updated_ns v.last_updated,
          sym v.event_id,
          sym v.entity_id,
          sym v.state,
          sym v.ingested_at,
          sym v.context_id,
          p,
        )
        refl
