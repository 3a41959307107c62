-- ===== src/Base/Text/Trim.antt =====
-- Characters of texts, and trimming.
use Prim.Native.Char.{code}
use Prim.Native.Nat.{ℕ}
use Prim.Native.String.{String}
use mathlib.Core.Path.{◌≡◌, refl, ap}
use mathlib.Core.Bool.{Bool, true, false, not, ◌&&◌}
use native.Mathlib.Omega.{arith}
use text.Mathlib.TextLemmas.{nil-append, cons-append}
use artifact_registry_servic.Base.Text.{
  ◌<>◌, is_space, is_blank, trim_left, trim_right, trim_space, all_chars,
}

pub all_chars_weaken :
    (p q : ℕ → Bool)
    → ((c : ℕ) → p c ≡ true → q c ≡ true)
    → (s : String) → all_chars p s ≡ true
    → all_chars q s ≡ true
all_chars_weaken p q h String.[] k = refl
all_chars_weaken p q h (String.◌∷◌ c s) k = ground (arith, h (code c), all_chars_weaken p q h s)

pub all_chars-append :
    (p : ℕ → Bool) (s t : String) → all_chars p (s <> t) ≡ (all_chars p s && all_chars p t)
all_chars-append p String.[] t = rw nil-append refl
all_chars-append p (String.◌∷◌ c s) t = rw cons-append (ground (arith, all_chars-append p s t))

-- Text without white space.
abbrev pub is_solid : String → Bool
is_solid = all_chars (λ c. not (is_space c))

trim_right_solid : (s : String) → is_solid s ≡ true → trim_right s ≡ s
unfolding trim_right is_blank
trim_right_solid String.[] h = refl
trim_right_solid (String.◌∷◌ c s) h =
    let here : is_space (code c) ≡ false = ground arith in
    let rest : is_solid s ≡ true = ground arith in
    rw here (ap (String.◌∷◌ c) (trim_right_solid s rest))

pub trim_space_solid : (s : String) → is_solid s ≡ true → trim_space s ≡ s
unfolding trim_space
trim_space_solid String.[] h = refl
trim_space_solid (String.◌∷◌ c s) h =
    let here : is_space (code c) ≡ false = ground arith in
    unfold trim_left in rw here (trim_right_solid (String.◌∷◌ c s) h)
