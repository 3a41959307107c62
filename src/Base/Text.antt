-- ===== src/Base/Text.antt =====
-- Go strings and the functions of package `strings` that the program calls. A string is a list of
-- code points (valid UTF-8); `byte_len` is Go's `len`.
pub mod Laws
pub mod Trim
pub mod Hex
pub mod Split
use Prim.Native.Nat.{ℕ, zero, suc, ◌+◌, ◌-◌, ◌/◌, ◌%◌}
use Prim.Native.Char
use Prim.Native.Char.{Char, code}
use Prim.Native.String
use Prim.Native.String.{String}
use mathlib.Core.Bool.{Bool, true, false, ◌&&◌, ◌||◌}
use mathlib.Core.Option.{Option, none, some}
use mathlib.Core.List.{List, [], ◌∷◌, ◌++◌}
use artifact_registry_servic.Base.Tests.{ltb, leb, eqb, if◌then◌else◌}

infixr 65 ◌<>◌
-- String concatenation.
abbrev pub ◌<>◌ : String → String → String
s <> t = String.◌++◌ s t

-- Bytes of a code point in UTF-8.
abbrev pub rune_len : ℕ → ℕ
rune_len c = if ltb c 0x80 then 1 else if ltb c 0x800 then 2 else if ltb c 0x10000 then 3 else 4

unfoldable pub byte_len : String → ℕ
byte_len String.[] = 0
byte_len (String.◌∷◌ c s) = rune_len (code c) + byte_len s

-- `unicode.IsSpace`.
unfoldable pub is_space : ℕ → Bool
is_space c =
    (leb 9 c && leb c 13)
    || eqb c 0x20
    || eqb c 0x85
    || eqb c 0xa0
    || eqb c 0x1680
    || (leb 0x2000 c && leb c 0x200a)
    || eqb c 0x2028
    || eqb c 0x2029
    || eqb c 0x202f
    || eqb c 0x205f
    || eqb c 0x3000

unfoldable pub trim_left : String → String
trim_left String.[] = ""
trim_left (String.◌∷◌ c s) =
    let rest = trim_left s in if is_space (code c) then rest else String.◌∷◌ c s

unfoldable pub is_blank : String → Bool
is_blank String.[] = true
is_blank (String.◌∷◌ c s) = is_space (code c) && is_blank s

-- Cuts the white space that ends the string.
unfoldable pub trim_right : String → String
unfolding is_blank
trim_right String.[] = ""
trim_right (String.◌∷◌ c s) =
    let rest = String.◌∷◌ c (trim_right s) in if is_blank (String.◌∷◌ c s) then "" else rest

-- `strings.TrimSpace`.
unfoldable pub trim_space : String → String
unfolding trim_left trim_right is_space
trim_space s = trim_right (trim_left s)

-- `strings.CutPrefix`: what stands behind the prefix, if it is there.
unfoldable pub cut_prefix : String → String → Option String
cut_prefix s String.[] = some s
cut_prefix String.[] (String.◌∷◌ d p) = none
cut_prefix (String.◌∷◌ c s) (String.◌∷◌ d p) =
    let rest = cut_prefix s p in if eqb (code c) (code d) then rest else none

abbrev found : Option String → Bool
found none = false
found (some _) = true

-- `strings.HasPrefix`.
unfoldable pub has_prefix : String → String → Bool
unfolding cut_prefix
has_prefix s p = found (cut_prefix s p)

-- `strings.Contains`.
unfoldable pub includes : String → String → Bool
unfolding has_prefix
includes String.[] p = has_prefix "" p
includes (String.◌∷◌ c s) p = has_prefix (String.◌∷◌ c s) p || includes s p

-- `strings.EqualFold`'s folding, as far as it reaches the ASCII letters: the capitals, the long s
-- and the Kelvin sign.
abbrev pub fold : ℕ → ℕ
fold c =
    if leb b'A' c && leb c b'Z'
    then c + 32
    else if eqb c 0x17f
    then b's'
    else if eqb c 0x212a
    then b'k'
    else c

unfoldable pub equal_fold : String → String → Bool
equal_fold String.[] String.[] = true
equal_fold String.[] (String.◌∷◌ d t) = false
equal_fold (String.◌∷◌ c s) String.[] = false
equal_fold (String.◌∷◌ c s) (String.◌∷◌ d t) = eqb (fold (code c)) (fold (code d)) && equal_fold s t

abbrev nth_char : String → ℕ → Char → Char
nth_char String.[] i d = d
nth_char (String.◌∷◌ c s) zero d = c
nth_char (String.◌∷◌ c s) (suc i) d = nth_char s i d

-- `strings.ToLower` on ASCII letters; other code points are kept, which no caller tells apart.
unfoldable pub to_lower : String → String
to_lower String.[] = ""
to_lower (String.◌∷◌ c s) =
    String.◌∷◌
      (if leb b'A' (code c) && leb (code c) b'Z'
        then nth_char "abcdefghijklmnopqrstuvwxyz" (code c - b'A') c
        else c)
      (to_lower s)

push : String → Char → String
push s c = s <> String.◌∷◌ c ""

-- `strings.Split` at one character.
split_from : ℕ → String → String → List String
unfolding push
split_from sep part String.[] = part ∷ []
split_from sep part (String.◌∷◌ c s) =
    let closed = part ∷ split_from sep "" s in
    let longer = split_from sep (push part c) s in if eqb (code c) sep then closed else longer

unfoldable pub split : String → ℕ → List String
unfolding split_from
split s sep = split_from sep "" s

-- Comparison of texts as SQLite's BINARY collation does it: by bytes, which for UTF-8 is by code
-- points.
unfoldable pub text_ltb : String → String → Bool
text_ltb String.[] String.[] = false
text_ltb String.[] (String.◌∷◌ d t) = true
text_ltb (String.◌∷◌ c s) String.[] = false
text_ltb (String.◌∷◌ c s) (String.◌∷◌ d t) =
    let rest = text_ltb s t in
    if ltb (code c) (code d) then true else if ltb (code d) (code c) then false else rest

-- Whether every character passes a test.
abbrev pub all_chars : (ℕ → Bool) → String → Bool
all_chars p String.[] = true
all_chars p (String.◌∷◌ c s) = p (code c) && all_chars p s

unfoldable pub digit_text : ℕ → String
digit_text d = String.◌∷◌ (nth_char "0123456789abcdef" d Char.nul) ""

-- `hex.EncodeToString`.
unfoldable pub hex_text : List ℕ → String
unfolding digit_text
hex_text [] = ""
hex_text (b ∷ bytes) = digit_text (b / 16) <> digit_text (b % 16) <> hex_text bytes

-- `[]byte(s)`: the bytes of a text in UTF-8.
abbrev rune_bytes : ℕ → List ℕ
rune_bytes c =
    if ltb c 0x80
    then c ∷ []
    else if ltb c 0x800
    then (0xc0 + c / 64) ∷ (0x80 + c % 64) ∷ []
    else if ltb c 0x10000
    then (0xe0 + c / 4096) ∷ (0x80 + c / 64 % 64) ∷ (0x80 + c % 64) ∷ []
    else (0xf0 + c / 262144) ∷ (0x80 + c / 4096 % 64) ∷ (0x80 + c / 64 % 64) ∷ (0x80 + c % 64) ∷ []

unfoldable pub utf8_bytes : String → List ℕ
utf8_bytes String.[] = []
utf8_bytes (String.◌∷◌ c s) = rune_bytes (code c) ++ utf8_bytes s

-- The verb %d on a natural number below 10 ^ `w`.
unfoldable pub decimal_text : ℕ → ℕ → String
unfolding digit_text
decimal_text zero n = ""
decimal_text (suc w) n =
    let front = decimal_text w (n / 10) in
    if ltb n 10 then digit_text n else front <> digit_text (n % 10)
