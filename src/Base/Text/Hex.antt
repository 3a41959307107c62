-- ===== src/Base/Text/Hex.antt =====
-- Hexadecimal text determines its bytes.
use Prim.Native.Char
use Prim.Native.Char.{Char, code}
use Prim.Native.Nat.{ℕ, zero, suc, ◌-◌, ◌/◌, ◌%◌, ◌<◌}
use Prim.Native.String.{String}
use mathlib.Core.Path.{◌≡◌, refl, sym, ap, ◌∙◌}
use mathlib.Core.Bool.{Bool, true, ◌&&◌}
use mathlib.Core.List.{List, ◌∷◌}
use native.Mathlib.Decide.{dec_lt}
use native.Mathlib.Omega.{arith}
use text.Mathlib.TextLemmas.{nil-append, cons-append, head-eq_of_cons-eq, tail-eq_of_cons-eq}
use artifact_registry_servic.Base.Tests.{eqb, leb, if◌then◌else◌}
use artifact_registry_servic.Base.Text.{◌<>◌, nth_char, digit_text, hex_text}

abbrev digit : ℕ → Char
digit d = nth_char "0123456789abcdef" d Char.nul

abbrev digit_value : ℕ → ℕ
digit_value c = if leb c 57 then c - 48 else c - 87

abbrev all_below : ℕ → (ℕ → Bool) → Bool
all_below zero p = true
all_below (suc n) p = p n && all_below n p

below : (n : ℕ) (p : ℕ → Bool) (d : ℕ) → all_below n p ≡ true → d < n → p d ≡ true
below zero p d h k = absurd (omega (arith, k))
below (suc n) p d h k = elim (dec_lt d n) [
  | yes l ↦ below n p d (ground arith) l
  | no l ↦ let same : d ≡ n = omega arith in rw same (ground arith)
]

digit_value-digit : (d : ℕ) → d < 16 → digit_value (code (digit d)) ≡ d
digit_value-digit d h =
    let read = below 16 (λ x. eqb (digit_value (code (digit x))) x) d refl h in ground arith

digit_injective : (d e : ℕ) → d < 16 → e < 16 → digit d ≡ digit e → d ≡ e
digit_injective d e h k same =
    sym (digit_value-digit d h) ∙ ap (λ c. digit_value (code c)) same ∙ digit_value-digit e k

digits-append :
    (d e : ℕ) (s : String)
    → digit_text d <> digit_text e <> s ≡ String.◌∷◌ (digit d) (String.◌∷◌ (digit e) s)
unfolding digit_text
digits-append d e s =
    cons-append _ _ _
    ∙ ap (String.◌∷◌ (digit d))
        (nil-append _ ∙ cons-append _ _ _ ∙ ap (String.◌∷◌ (digit e)) (nil-append s))

pub hex_text_injective :
    (b b' : ℕ) (rest rest' : List ℕ)
    → b < 256
    → b' < 256
    → hex_text (b ∷ rest) ≡ hex_text (b' ∷ rest')
    → (b ≡ b') × (hex_text rest ≡ hex_text rest')
unfolding hex_text
hex_text_injective b b' rest rest' h h' e =
    let cut =
      sym (digits-append (b / 16) (b % 16) (hex_text rest))
      ∙ e
      ∙ digits-append (b' / 16) (b' % 16) (hex_text rest') in
    let tails = tail-eq_of_cons-eq cut in
    let high : b / 16 ≡ b' / 16 =
      digit_injective (b / 16) (b' / 16) (omega arith) (omega arith) (head-eq_of_cons-eq cut) in
    let low : b % 16 ≡ b' % 16 =
      digit_injective (b % 16) (b' % 16) (omega arith) (omega arith) (head-eq_of_cons-eq tails) in
    (omega (arith, high, low), tail-eq_of_cons-eq tails)
