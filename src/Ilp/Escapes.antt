-- ===== src/Ilp/Escapes.antt =====
-- The escapes of custom_components/hass_questdb_writer/ilp.py as one pass over the text, and a
-- reader that undoes them.
use mathlib.Core.List.{flat_map, append_assoc}
use hass_questdb_writer.Prelude.{
  ℕ, ◌≡◌, refl, sym, ap, ◌∙◌, Bool, true, false, ◌||◌, Option, none, some, [], ◌∷◌, ◌++◌, ◌==◌,
  if◌then◌else◌, Text, replace_one, replace, arith, Bool-cases, inl, inr, ==_iff,
}
use hass_questdb_writer.Ilp.{replace_identifier, replace_string}

-- What a text is read into before its end, with the rest from the end on.
abbrev pub Reading : Type 0
Reading = Option (Text × Text)

abbrev pub push : ℕ → Reading → Reading
push c none = none
push c (some (s, rest)) = some (c ∷ s, rest)

-- The text up to the first character that `stop` names, where a backslash makes the next one stand
-- for itself; the second argument holds behind a backslash.
unfoldable pub read_until : (ℕ → Bool) → Bool → Text → Reading
read_until stop escaped [] = none
read_until stop true (c ∷ s) = push c (read_until stop false s)
read_until stop false (c ∷ s) =
    let behind = read_until stop true s in
    let next = push c (read_until stop false s) in
    if c == b'\\' then behind else if stop c then some ([], c ∷ s) else next

-- What ends a name or an unquoted value.
unfoldable pub ends_name : ℕ → Bool
ends_name c = (c == b' ') || (c == b',') || (c == b'=') || (c == b'\n') || (c == b'\r')

-- What ends a string.
unfoldable pub ends_string : ℕ → Bool
ends_string c = ((c == b'"') || (c == b'\n')) || (c == b'\r')

-- One character, behind a backslash where it has a meaning of its own.
unfoldable pub hide : (ℕ → Bool) → ℕ → Text
hide stop c = if (c == b'\\') || stop c then b'\\' ∷ c ∷ [] else c ∷ []

replace-append : (c : ℕ) (t u v : Text) → replace c t (u ++ v) ≡ replace c t u ++ replace c t v
unfolding replace flat_map
replace-append c t [] v = refl
replace-append c t (d ∷ u) v =
    rw (replace-append c t u v) (sym (append_assoc (replace_one c t d) _ _))

-- A further `replace` hides one more character.
hide_one :
    (c : ℕ) (stop : ℕ → Bool)
    → (c == b'\\') ≡ false
    → stop c ≡ false
    → (d : ℕ) → replace c (b'\\' ∷ c ∷ []) (hide stop d) ≡ hide (λ e. stop e || (e == c)) d
unfolding replace flat_map hide replace_one
hide_one c stop ne off d = elim (Bool-cases (d == c)) [
  | inl e ↦ ground (arith, ap stop ((==_iff d c).0 e))
  | inr e ↦ ground (arith, e)
]

hide_more :
    (c : ℕ) (stop : ℕ → Bool)
    → (c == b'\\') ≡ false
    → stop c ≡ false
    → (s : Text)
    → replace c (b'\\' ∷ c ∷ []) (flat_map (hide stop) s)
      ≡ flat_map (hide (λ e. stop e || (e == c))) s
unfolding flat_map replace
hide_more c stop ne off [] = refl
hide_more c stop ne off (d ∷ s) =
    replace-append c _ (hide stop d) _
    ∙ rw (hide_one c stop ne off d, hide_more c stop ne off s) refl

hide_backslash : (c : ℕ) → replace_one b'\\' (b'\\' ∷ b'\\' ∷ []) c ≡ hide (λ _. false) c
unfolding replace_one hide
hide_backslash c = ground arith

hide_first : (s : Text) → replace b'\\' (b'\\' ∷ b'\\' ∷ []) s ≡ flat_map (hide (λ _. false)) s
unfolding flat_map replace hide replace_one
hide_first [] = refl
hide_first (c ∷ s) = cc (hide_backslash c, hide_first s)

-- The six replacements of `_escape_identifier` in turn are one pass.
pub replace_identifier_lem : (s : Text) → replace_identifier s ≡ flat_map (hide ends_name) s
unfolding replace_identifier hide ends_name
replace_identifier_lem s =
    rw
      (
        hide_first s,
        hide_more b' ' (λ _. false) refl refl s,
        hide_more b',' (λ c. c == b' ') refl refl s,
        hide_more b'=' (λ c. (c == b' ') || (c == b',')) refl refl s,
        hide_more b'\n' (λ c. ((c == b' ') || (c == b',')) || (c == b'=')) refl refl s,
        hide_more b'\r' (λ c. (((c == b' ') || (c == b',')) || (c == b'=')) || (c == b'\n')) refl
            refl s,
      )
      refl

pub replace_string_lem : (s : Text) → replace_string s ≡ flat_map (hide ends_string) s
unfolding replace_string hide ends_string
replace_string_lem s =
    rw
      (
        hide_first s,
        hide_more b'"' (λ _. false) refl refl s,
        hide_more b'\n' (λ c. c == b'"') refl refl s,
        hide_more b'\r' (λ c. (c == b'"') || (c == b'\n')) refl refl s,
      )
      refl

-- The reader gets every hidden text back and stops behind it.
pub read_until-hide :
    (stop : ℕ → Bool) (s : Text) (c : ℕ) (rest : Text)
    → (c == b'\\') ≡ false
    → stop c ≡ true
    → read_until stop false (flat_map (hide stop) s ++ c ∷ rest) ≡ some (s, c ∷ rest)
unfolding read_until flat_map hide
read_until-hide stop [] c rest ne on = rw (ne, on) refl
read_until-hide stop (d ∷ s) c rest ne on = elim (Bool-cases (d == b'\\')) [
  | inl e ↦ ground (arith, read_until-hide stop s c rest ne on)
  | inr e ↦ elim (Bool-cases (stop d)) [
    | inl f ↦ ground (arith, read_until-hide stop s c rest ne on)
    | inr f ↦ ground (arith, read_until-hide stop s c rest ne on)
  ]
]
