-- ===== src/Prelude/Utf8.antt =====
-- Python's strict UTF-8 codec, `str.encode` and `bytes.decode`.
use Prim.Native.Nat.{ℕ, zero, suc, ◌+◌, ◌-◌, ◌*◌, ◌/◌, ◌%◌, ◌<◌}
use mathlib.Core.Bool.{Bool, true, false, ◌&&◌, ◌||◌}
use mathlib.Core.Option.{Option, none, some}
use mathlib.Core.List.{List, [], ◌∷◌, ◌++◌}
use hass_questdb_writer.Prelude.Tests.{ltb, leb, if◌then◌else◌}
use hass_questdb_writer.Prelude.Texts.{Text, Bytes}

-- The bytes of one code point in UTF-8; surrogates have none.
unfoldable pub utf8_char : ℕ → Option Bytes
utf8_char c =
    if ltb c 128
    then some (c ∷ [])
    else if ltb c 2048
    then some ((192 + c / 64) ∷ (128 + c % 64) ∷ [])
    else if leb 55296 c && ltb c 57344
    then none
    else if ltb c 65536
    then some ((224 + c / 4096) ∷ (128 + c / 64 % 64) ∷ (128 + c % 64) ∷ [])
    else some
        ((240 + c / 262144) ∷ (128 + c / 4096 % 64) ∷ (128 + c / 64 % 64) ∷ (128 + c % 64) ∷ [])

abbrev pub append_both : Option Bytes → Option Bytes → Option Bytes
append_both (some s) (some t) = some (s ++ t)
append_both _ _ = none

-- `.encode("utf-8")`
unfoldable pub utf8 : Text → Option Bytes
unfolding utf8_char
utf8 [] = some []
utf8 (c ∷ s) = append_both (utf8_char c) (utf8 s)

-- What a decoder is at: between two characters, or within one, with the number of bytes missing
-- after the next, the bits so far, and the least number that the length is for.
pub data Decoder : Type 0 where
  between : Decoder
  within : ℕ → ℕ → ℕ → Decoder

abbrev pub is_surrogate : ℕ → Bool
is_surrogate c = leb 55296 c && ltb c 57344

-- After the last byte of a character.
unfoldable pub complete : ℕ → ℕ → Option (Decoder × List ℕ)
complete least c =
    if ltb c least || leb 1114112 c || is_surrogate c then none else some (between, c ∷ [])

-- One byte: the characters it completes, `none` where the bytes are not UTF-8.
unfoldable pub decode_byte : Decoder → ℕ → Option (Decoder × List ℕ)
unfolding complete
decode_byte between b =
    if ltb b 128
    then some (between, b ∷ [])
    else if ltb b 192
    then none
    else if ltb b 224
    then some (within 0 (b - 192) 128, [])
    else if ltb b 240
    then some (within 1 (b - 224) 2048, [])
    else if ltb b 248
    then some (within 2 (b - 240) 65536, [])
    else none
decode_byte (within k v l) b = if ltb b 128 || leb 192 b then none else elim k [
  | zero ↦ complete l (v * 64 + (b - 128))
  | suc k' ↦ some (within k' (v * 64 + (b - 128)) l, [])
]

abbrev pub emit : List ℕ → Option Text → Option Text
emit out none = none
emit out (some s) = some (out ++ s)

abbrev pub is_between : Decoder → Bool
is_between between = true
is_between _ = false

unfoldable pub decode_on : Decoder → Bytes → Option Text
unfolding decode_byte
decode_on d [] = if is_between d then some [] else none
decode_on d (b ∷ bs) = elim (decode_byte d b) [
  | none ↦ none
  | some (d', out) ↦ emit out (decode_on d' bs)
]

-- `.decode("utf-8")`
unfoldable pub utf8_decode : Bytes → Option Text
unfolding decode_on
utf8_decode = decode_on between

abbrev pub IsCodePoint : ℕ → Type 0
IsCodePoint c = c < 1114112
