-- ===== src/Base/Text/Split.antt =====
-- `split` at slashes.
use Prim.Native.Char.{Char, code}
use Prim.Native.String.{String}
use mathlib.Core.Path.{◌≡◌, refl, sym, ap, ◌∙◌}
use mathlib.Core.Logic.{inl, inr}
use mathlib.Core.Bool.{Bool, true, false, not}
use mathlib.Core.List.{[], ◌∷◌, ◌++◌}
use native.Mathlib.Omega.{arith}
use text.Mathlib.TextLemmas.{nil-append, cons-append, append-nil, append_assoc}
use artifact_registry_servic.Base.Tests.{eqb, Bool-cases}
use artifact_registry_servic.Base.Text.{◌<>◌, push, split_from, split, all_chars}

abbrev pub no_slash : String → Bool
no_slash = all_chars (λ c. not (eqb c b'/'))

abbrev pub slash : Char
slash = "/"

pub slash-append : (x : String) → "" <> "/" <> x ≡ String.◌∷◌ slash x
slash-append x = nil-append _ ∙ cons-append slash "" x ∙ ap (String.◌∷◌ slash) (nil-append x)

split_from-append :
    (part s t : String)
    → split_from b'/' part (s <> "/" <> t) ≡ split_from b'/' part s ++ split_from b'/' "" t
unfolding split_from
split_from-append part String.[] t = rw (slash-append t) refl
split_from-append part (String.◌∷◌ c s) t =
    rw (cons-append c s ("/" <> t)) (elim (Bool-cases (eqb (code c) b'/')) [
      | inl here ↦ rw here (ap (λ l. part ∷ l) (split_from-append "" s t))
      | inr other ↦ rw other (split_from-append (push part c) s t)
    ])

pub split-append : (s t : String) → split (s <> "/" <> t) b'/' ≡ split s b'/' ++ split t b'/'
unfolding split
split-append s t = split_from-append "" s t

split_from-no_slash :
    (part s : String) → no_slash s ≡ true → split_from b'/' part s ≡ (part <> s) ∷ []
unfolding split_from push
split_from-no_slash part String.[] h = ap (λ p. p ∷ []) (sym (append-nil part))
split_from-no_slash part (String.◌∷◌ c s) h =
    let other : eqb (code c) b'/' ≡ false = ground arith in
    let joined : (part <> String.◌∷◌ c "") <> s ≡ part <> String.◌∷◌ c s =
      append_assoc part (String.◌∷◌ c "") s
      ∙ ap (λ x. part <> x) (cons-append c "" s ∙ ap (String.◌∷◌ c) (nil-append s)) in
    rw other
      (split_from-no_slash (part <> String.◌∷◌ c "") s (ground arith) ∙ ap (λ p. p ∷ []) joined)

pub split-no_slash : (s : String) → no_slash s ≡ true → split s b'/' ≡ s ∷ []
unfolding split
split-no_slash s h = split_from-no_slash "" s h ∙ ap (λ p. p ∷ []) (nil-append s)
