-- ===== src/AttributeFilter.antt =====
-- The attribute filter of custom_components/hass_questdb_writer/attribute_filter.py. `fnmatchcase`
-- is an argument.
pub mod Patterns
pub mod Allowed
pub mod Forms
mod Tests
use hass_questdb_writer.Prelude.{
  ℕ, Bool, true, false, not, ◌&&◌, ◌||◌, Option, none, some, List, [], ◌∷◌, ◌++◌, leb, ◌==◌,
  if◌then◌else◌, any_of, Text, text_eq, is_empty,
}

-- `AttributeFilter`
pub record AttributeFilter : Type 0 where
  pub allow : List Text
  pub deny : List Text

-- `__call__`
unfoldable pub passes : (Text → Text → Bool) → AttributeFilter → Text → Bool
unfolding any_of
passes fnmatchcase f name =
    if not (is_empty f.deny) && any_of (fnmatchcase name) f.deny
    then false
    else if is_empty f.allow
    then true
    else any_of (fnmatchcase name) f.allow

-- The characters that `str.strip` removes.
unfoldable pub is_space : ℕ → Bool
unfolding any_of
is_space c =
    leb 9 c && leb c 13
    || leb 28 c && leb c 32
    || leb 8192 c && leb c 8202
    || any_of (λ d. d == c) (133 ∷ 160 ∷ 5760 ∷ 8232 ∷ 8233 ∷ 8239 ∷ 8287 ∷ 12288 ∷ [])

unfoldable pub strip_start : Text → Text
strip_start [] = []
strip_start (c ∷ s) = let rest = strip_start s in if is_space c then rest else c ∷ s

unfoldable pub strip_end : Text → Text
strip_end [] = []
strip_end (c ∷ s) = let rest = strip_end s in if is_space c && is_empty rest then [] else c ∷ rest

-- `s.strip()`
unfoldable pub strip : Text → Text
unfolding strip_start strip_end
strip s = strip_end (strip_start s)

abbrev pub grow : ℕ → List Text → List Text
grow c [] = (c ∷ []) ∷ []
grow c (t ∷ ts) = (c ∷ t) ∷ ts

-- `s.split(c)`
unfoldable pub split : ℕ → Text → List Text
split c [] = [] ∷ []
split c (d ∷ s) = let rest = split c s in if d == c then [] ∷ rest else grow d rest

-- The keys of a dict after `setdefault(key, None)`.
unfoldable pub setdefault : Text → List Text → List Text
unfolding any_of text_eq
setdefault key seen = if any_of (text_eq key) seen then seen else seen ++ key ∷ []

-- The loop over the parts.
unfoldable pub add_patterns : List Text → List Text → List Text
unfolding strip setdefault
add_patterns seen [] = seen
add_patterns seen (part ∷ parts) =
    add_patterns (if is_empty (strip part) then seen else setdefault (strip part) seen) parts

-- `parse_attribute_patterns`
unfoldable pub parse_attribute_patterns : Option Text → List Text
unfolding split add_patterns
parse_attribute_patterns none = []
parse_attribute_patterns (some value) =
    if is_empty value then [] else add_patterns [] (split b',' value)
