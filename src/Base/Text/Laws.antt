-- ===== src/Base/Text/Laws.antt =====
-- The order of texts.
use Prim.Native.String.{String}
use mathlib.Core.Path.{◌≡◌, refl}
use mathlib.Core.Bool.{true, false}
use native.Mathlib.Omega.{arith}
use artifact_registry_servic.Base.Text.{text_ltb}

pub text_ltb_irrefl : (s : String) → text_ltb s s ≡ false
unfolding text_ltb
text_ltb_irrefl String.[] = refl
text_ltb_irrefl (String.◌∷◌ c s) = ground (arith, text_ltb_irrefl s)

pub text_ltb_asymm : (s t : String) → text_ltb s t ≡ true → text_ltb t s ≡ false
unfolding text_ltb
text_ltb_asymm String.[] String.[] h = refl
text_ltb_asymm String.[] (String.◌∷◌ d t) h = refl
text_ltb_asymm (String.◌∷◌ c s) String.[] h = cc
text_ltb_asymm (String.◌∷◌ c s) (String.◌∷◌ d t) h = ground (arith, text_ltb_asymm s t)
