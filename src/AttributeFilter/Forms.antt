-- ===== src/AttributeFilter/Forms.antt =====
-- Patterns of custom_components/hass_questdb_writer/attribute_filter.py through the form of
-- custom_components/hass_questdb_writer/config_flow.py, which shows them joined by `", "`.
use mathlib.Core.List.{append_assoc, append-nil}
use mathlib.Core.Path.{subst}
use hass_questdb_writer.Prelude.{
  ℕ, ◌≡◌, refl, sym, ◌∙◌, Bool, false, Option, some, List, [], ◌∷◌, ◌++◌, map, ◌==◌, any_of,
  any_of-append, All, All-mono, Text, text_eq, text_eq_iff, is_empty, arith, codes, join,
}
use hass_questdb_writer.AttributeFilter.{
  is_space, strip_start, strip_end, strip, split, setdefault, add_patterns,
  parse_attribute_patterns,
}
use hass_questdb_writer.AttributeFilter.Patterns.{
  starts_with_space, ends_with_space, IsPattern, AreDistinct, parse_attribute_patterns_lem,
}

abbrev has_comma : Text → Bool
has_comma = any_of (λ c. c == b',')

split-last : (s : Text) → has_comma s ≡ false → split b',' s ≡ s ∷ []
unfolding split any_of
split-last [] h = refl
split-last (c ∷ s) h = ground (arith, h, split-last s)

split-comma : (s t : Text) → has_comma s ≡ false → split b',' (s ++ b',' ∷ t) ≡ s ∷ split b',' t
unfolding split any_of
split-comma [] t h = refl
split-comma (c ∷ s) t h = ground (arith, h, split-comma s t)

-- A joined list splits at its commas.
split-join :
    (x p : Text) (ps : List Text)
    → has_comma x ≡ false
    → All (λ q. has_comma q ≡ false) (p ∷ ps)
    → split b',' (x ++ join (codes ", ") (p ∷ ps)) ≡ (x ++ p) ∷ map (◌∷◌ b' ') ps
unfolding join any_of
split-join x p [] h all = split-last (x ++ p) (any_of-append _ x p ∙ rw (h, all.0) refl)
split-join x p (q ∷ qs) h all =
    rw
      (
        sym (append_assoc x p (b',' ∷ b' ' ∷ join (codes ", ") (q ∷ qs))),
        split-comma (x ++ p) (b' ' ∷ join (codes ", ") (q ∷ qs))
            (any_of-append _ x p ∙ rw (h, all.0) refl),
        split-join (b' ' ∷ []) q qs refl all.1,
      )
      refl

strip_start-id : (s : Text) → starts_with_space s ≡ false → strip_start s ≡ s
unfolding strip_start starts_with_space
strip_start-id [] h = refl
strip_start-id (c ∷ s) h = rw h refl

strip_end-cons :
    (c : ℕ) (s : Text) → is_empty s ≡ false → strip_end s ≡ s → strip_end (c ∷ s) ≡ c ∷ s
unfolding strip_end
strip_end-cons c s h e = ground (arith, h, e)

strip_end-id : (s : Text) → ends_with_space s ≡ false → strip_end s ≡ s
unfolding strip_end ends_with_space
strip_end-id [] h = refl
strip_end-id (c ∷ []) h = rw h refl
strip_end-id (c ∷ d ∷ s) h = strip_end-cons c (d ∷ s) refl (strip_end-id (d ∷ s) h)

strip-id : (s : Text) → IsPattern s → strip s ≡ s
unfolding strip
strip-id s p = rw (strip_start-id s p.1) (strip_end-id s p.2)

strip-space : (s : Text) → IsPattern s → strip (b' ' ∷ s) ≡ s
unfolding strip strip_start is_space
strip-space s p = strip-id s p

not_seen :
    (seen : List Text) (p : Text) (ps : List Text)
    → AreDistinct (seen ++ p ∷ ps)
    → any_of (text_eq p) seen ≡ false
unfolding any_of
not_seen [] p ps d = refl
not_seen (t ∷ seen) p ps d = ground (
  arith,
  d.0,
  any_of-append (text_eq t) seen (p ∷ ps),
  text_eq_iff t p,
  text_eq_iff p t,
  not_seen seen p ps d.1,
)

add_one :
    (seen : List Text) (p part : Text) (parts : List Text)
    → IsPattern p
    → strip part ≡ p
    → any_of (text_eq p) seen ≡ false
    → add_patterns seen (part ∷ parts) ≡ add_patterns (seen ++ p ∷ []) parts
unfolding add_patterns setdefault
add_one seen p part parts is e fresh = rw (e, add_patterns, is.0, setdefault, fresh) refl

-- Distinct patterns are all added, in order.
add_patterns_each :
    (f : Text → Text) (seen ps : List Text)
    → ((p : Text) → IsPattern p → strip (f p) ≡ p)
    → All IsPattern ps
    → AreDistinct (seen ++ ps)
    → add_patterns seen (map f ps) ≡ seen ++ ps
unfolding add_patterns setdefault
add_patterns_each f seen [] undo all d = sym (append-nil seen)
add_patterns_each f seen (p ∷ ps) undo all d =
    let same : (seen ++ p ∷ []) ++ ps ≡ seen ++ p ∷ ps = append_assoc seen (p ∷ []) ps in
    add_one seen p (f p) (map f ps) all.0 (undo p all.0) (not_seen seen p ps d)
    ∙ (add_patterns_each f (seen ++ p ∷ []) ps undo all.1 (subst AreDistinct (sym same) d) ∙ same)

patterns-commas : (ps : List Text) → All IsPattern ps → All (λ q. has_comma q ≡ false) ps
patterns-commas ps = All-mono (λ q p. p.3) ps

join_full :
    (p : Text) (ps : List Text) → is_empty p ≡ false → is_empty (join (codes ", ") (p ∷ ps)) ≡ false
unfolding join
join_full [] ps h = absurd (cc (h))
join_full (c ∷ p) [] h = refl
join_full (c ∷ p) (q ∷ ps) h = refl

-- What the form shows for distinct patterns is parsed to the same patterns.
parse-join :
    (ps : List Text)
    → All IsPattern ps
    → AreDistinct ps
    → parse_attribute_patterns (some (join (codes ", ") ps)) ≡ ps
unfolding parse_attribute_patterns join
parse-join [] all d = refl
parse-join (p ∷ ps) all d =
    rw (join_full p ps all.0.0, split-join [] p ps refl (patterns-commas (p ∷ ps) all))
      (add_one [] p p (map (◌∷◌ b' ') ps) all.0 (strip-id p all.0) refl
        ∙ add_patterns_each (◌∷◌ b' ') (p ∷ []) ps strip-space all.1 d)

-- A list of patterns that was parsed from a form is parsed from what the form shows of it.
parse_attribute_patterns-join :
    (value : Option Text)
    → parse_attribute_patterns (some (join (codes ", ") (parse_attribute_patterns value)))
      ≡ parse_attribute_patterns value
parse_attribute_patterns-join value =
    let (all, distinct) = parse_attribute_patterns_lem value in
    parse-join (parse_attribute_patterns value) all distinct
