-- ===== src/Prelude/Decoding.antt =====
-- The strict UTF-8 decoder gives back what the encoder took.
use Prim.Native.Nat.{ℕ, suc, ◌+◌, ◌*◌, ◌/◌, ◌%◌, ◌<◌, ◌≤◌}
use mathlib.Core.Path.{◌≡◌, refl, ap, ◌∙◌}
use mathlib.Core.Logic.{inl, inr}
use mathlib.Core.Bool.{false}
use mathlib.Core.Option.{Option, none, some}
use mathlib.Core.List.{[], ◌∷◌, ◌++◌}
use native.Mathlib.Omega.{arith}
use hass_questdb_writer.Prelude.Tests.{ltb, Option-cases, Bool-cases}
use hass_questdb_writer.Prelude.Lists.{All}
use hass_questdb_writer.Prelude.Texts.{Text, Bytes}
use hass_questdb_writer.Prelude.Utf8.{
  utf8_char, utf8, between, within, is_surrogate, complete, decode_byte, emit, decode_on,
  utf8_decode, IsCodePoint,
}

emit-nil : (o : Option Text) → emit [] o ≡ o
emit-nil none = refl
emit-nil (some s) = refl

-- The first byte of a character of two, three or four.
first_byte :
    (k v l b : ℕ) (bs : Bytes)
    → decode_byte between b ≡ some (within k v l, [])
    → decode_on between (b ∷ bs) ≡ decode_on (within k v l) bs
unfolding decode_on
first_byte k v l b bs e = rw (e, decode_on) (emit-nil _)

next_state :
    (k v l b : ℕ)
    → b < 64
    → decode_byte (within (suc k) v l) (128 + b) ≡ some (within k (v * 64 + b) l, [])
unfolding decode_byte
next_state k v l b h = ground arith

last_state :
    (v l b : ℕ)
    → b < 64
    → l ≤ v * 64 + b
    → v * 64 + b < 1114112
    → is_surrogate (v * 64 + b) ≡ false
    → decode_byte (within 0 v l) (128 + b) ≡ some (between, (v * 64 + b) ∷ [])
unfolding decode_byte complete
last_state v l b h h₁ h₂ h₃ = ground arith

-- A byte within a character that is not its last.
next_byte :
    (k v l b : ℕ) (bs : Bytes)
    → b < 64
    → decode_on (within (suc k) v l) ((128 + b) ∷ bs) ≡ decode_on (within k (v * 64 + b) l) bs
unfolding decode_on
next_byte k v l b bs h = rw (next_state k v l b h, decode_on) (emit-nil _)

last_byte :
    (v l b : ℕ) (bs : Bytes)
    → b < 64
    → l ≤ v * 64 + b
    → v * 64 + b < 1114112
    → is_surrogate (v * 64 + b) ≡ false
    → decode_on (within 0 v l) ((128 + b) ∷ bs) ≡ emit ((v * 64 + b) ∷ []) (decode_on between bs)
unfolding decode_on
last_byte v l b bs h h₁ h₂ h₃ = rw (last_state v l b h h₁ h₂ h₃, decode_on) refl

first_of_two :
    (c : ℕ)
    → 127 < c
    → c < 2048
    → decode_byte between (192 + c / 64) ≡ some (within 0 (c / 64) 128, [])
unfolding decode_byte
first_of_two c h h' = ground arith

first_of_three :
    (c : ℕ) → c < 65536 → decode_byte between (224 + c / 4096) ≡ some (within 1 (c / 4096) 2048, [])
unfolding decode_byte
first_of_three c h = ground arith

first_of_four :
    (c : ℕ)
    → c < 1114112
    → decode_byte between (240 + c / 262144) ≡ some (within 2 (c / 262144) 65536, [])
unfolding decode_byte
first_of_four c h = ground arith

decode_two :
    (c : ℕ) (bs : Bytes)
    → 127 < c
    → c < 2048
    → decode_on between ((192 + c / 64) ∷ (128 + c % 64) ∷ bs)
      ≡ emit (c ∷ []) (decode_on between bs)
decode_two c bs h h' =
    let whole : c / 64 * 64 + c % 64 ≡ c = omega arith in
    first_byte 0 (c / 64) 128 _ _ (first_of_two c h h')
    ∙ last_byte (c / 64) 128 (c % 64) bs (omega arith) (omega arith) (omega arith) (ground arith)
    ∙ ap (λ d. emit (d ∷ []) (decode_on between bs)) whole

decode_three :
    (c : ℕ) (bs : Bytes)
    → 2047 < c
    → c < 65536
    → is_surrogate c ≡ false
    → decode_on between ((224 + c / 4096) ∷ (128 + c / 64 % 64) ∷ (128 + c % 64) ∷ bs)
      ≡ emit (c ∷ []) (decode_on between bs)
decode_three c bs h h' h'' =
    let whole : (c / 4096 * 64 + c / 64 % 64) * 64 + c % 64 ≡ c = omega arith in
    first_byte 1 (c / 4096) 2048 _ _ (first_of_three c h')
    ∙ next_byte 0 (c / 4096) 2048 (c / 64 % 64) _ (omega arith)
    ∙ last_byte (c / 4096 * 64 + c / 64 % 64) 2048 (c % 64) bs (omega arith) (omega arith)
        (omega arith) (rw whole h'')
    ∙ ap (λ d. emit (d ∷ []) (decode_on between bs)) whole

decode_four :
    (c : ℕ) (bs : Bytes)
    → 65535 < c
    → c < 1114112
    → decode_on between
        ((240 + c / 262144) ∷ (128 + c / 4096 % 64) ∷ (128 + c / 64 % 64) ∷ (128 + c % 64) ∷ bs)
      ≡ emit (c ∷ []) (decode_on between bs)
decode_four c bs h h' =
    let whole : ((c / 262144 * 64 + c / 4096 % 64) * 64 + c / 64 % 64) * 64 + c % 64 ≡ c =
      omega arith in
    first_byte 2 (c / 262144) 65536 _ _ (first_of_four c h')
    ∙ next_byte 1 (c / 262144) 65536 (c / 4096 % 64) _ (omega arith)
    ∙ next_byte 0 (c / 262144 * 64 + c / 4096 % 64) 65536 (c / 64 % 64) _ (omega arith)
    ∙ last_byte ((c / 262144 * 64 + c / 4096 % 64) * 64 + c / 64 % 64) 65536 (c % 64) bs
        (omega arith) (omega arith) (omega arith) (rw whole (ground arith))
    ∙ ap (λ d. emit (d ∷ []) (decode_on between bs)) whole

one_state : (c : ℕ) → c < 128 → decode_byte between c ≡ some (between, c ∷ [])
unfolding decode_byte
one_state c h = ground arith

decode_one :
    (c : ℕ) (bs : Bytes)
    → c < 128
    → decode_on between (c ∷ bs) ≡ emit (c ∷ []) (decode_on between bs)
unfolding decode_on
decode_one c bs h = rw (one_state c h, decode_on) refl

decode-char :
    (c : ℕ) (bs b : Bytes)
    → IsCodePoint c
    → utf8_char c ≡ some b
    → decode_on between (b ++ bs) ≡ emit (c ∷ []) (decode_on between bs)
unfolding utf8_char
decode-char c bs b h e = elim (Bool-cases (ltb c 128)) [
  | inl t ↦ let w : b ≡ c ∷ [] = ground (arith, e, t) in rw w (decode_one c bs (ground (arith, t)))
  | inr f ↦ elim (Bool-cases (ltb c 2048)) [
    | inl t ↦
        let w : b ≡ (192 + c / 64) ∷ (128 + c % 64) ∷ [] = ground (arith, e, t, f) in
        rw w (decode_two c bs (ground (arith, f)) (ground (arith, t)))
    | inr f' ↦ elim (Bool-cases (is_surrogate c)) [
      | inl t ↦ absurd (ground (arith, e, t, f, f'))
      | inr g ↦ elim (Bool-cases (ltb c 65536)) [
        | inl t ↦
            let w : b ≡ (224 + c / 4096) ∷ (128 + c / 64 % 64) ∷ (128 + c % 64) ∷ [] =
              ground (arith, e, t, f, f', g) in
            rw w (decode_three c bs (ground (arith, f')) (ground (arith, t)) g)
        | inr f'' ↦
            let w : b
                ≡ (240 + c / 262144)
                  ∷ (128 + c / 4096 % 64)
                  ∷ (128 + c / 64 % 64)
                  ∷ (128 + c % 64)
                  ∷ [] =
              ground (arith, e, f, f', f'', g) in
            rw w (decode_four c bs (ground (arith, f'')) h)
      ]
    ]
  ]
]

pub utf8_decode-utf8 :
    (s : Text) (b : Bytes) → All IsCodePoint s → utf8 s ≡ some b → utf8_decode b ≡ some s
unfolding utf8 utf8_decode decode_on
utf8_decode-utf8 [] b h e = let w : b ≡ [] = cc (e) in rw w refl
utf8_decode-utf8 (c ∷ s) b h e = elim (Option-cases (utf8_char c)) [
  | inl f ↦ absurd (cc (e, f))
  | inr (x, f) ↦ elim (Option-cases (utf8 s)) [
    | inl g ↦ absurd (cc (e, f, g))
    | inr (y, g) ↦
        let w : b ≡ x ++ y = cc (e, f, g) in
        rw w (decode-char c y x h.0 f ∙ ap (emit (c ∷ [])) (utf8_decode-utf8 s y h.1 g))
  ]
]
