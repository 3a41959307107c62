-- ===== src/Storage/Path/Laws.antt =====
-- What `Join` makes of a base and a key: the parts of the key, on those of the base.
use text.Mathlib.TextLemmas.{cons-append}
use Prim.Native.Char.{code}
use mathlib.Core.List.{reverse}
use artifact_registry_servic.Base.{
  String, ◌<>◌, ◌==◌, ◌≡◌, refl, ap, ◌∙◌, Bool-cases, inl, inr, Bool, true, false, not, ◌&&◌, ◌||◌,
  List, [], ◌∷◌, ◌++◌, split, has_prefix, eqb, arith, if◌then◌else◌,
}
use artifact_registry_servic.Base.Text.Split.{split-append, no_slash}
use artifact_registry_servic.Storage.Path.{parent, clean_parts, join_parts, clean, join}

-- A part that stays in the path as it is.
abbrev pub is_plain : String → Bool
is_plain p = no_slash p && not (p == "" || p == "." || p == "..")

-- One part, on the parts before it, the last at the head.
abbrev pub visit : Bool → List String → String → List String
visit rooted stack part =
    if part == "" || part == "."
    then stack
    else if part == ".."
    then parent rooted stack
    else part ∷ stack

abbrev pub walk : Bool → List String → List String → List String
walk rooted stack [] = stack
walk rooted stack (part ∷ parts) = walk rooted (visit rooted stack part) parts

none_of :
    (a b c d : Bool) → (a && not (b || c || d)) ≡ true → (b ≡ false) × (c ≡ false) × (d ≡ false)
none_of a b c d h = (ground arith, ground arith, ground arith)

pub visit-plain :
    (rooted : Bool) (stack : List String) (p : String)
    → is_plain p ≡ true
    → visit rooted stack p ≡ p ∷ stack
visit-plain rooted stack p h =
    let (e, d, dd) = none_of (no_slash p) (p == "") (p == ".") (p == "..") h in
    rw e (rw d (rw dd refl))

pub parent-plain :
    (rooted : Bool) (stack : List String) (p : String)
    → is_plain p ≡ true
    → parent rooted (p ∷ stack) ≡ stack
unfolding parent
parent-plain rooted stack p h =
    let (e, d, dd) = none_of (no_slash p) (p == "") (p == ".") (p == "..") h in rw dd refl

clean_parts-walk :
    (rooted : Bool) (stack parts : List String)
    → clean_parts rooted stack parts ≡ reverse (walk rooted stack parts)
unfolding clean_parts
clean_parts-walk rooted stack [] = refl
clean_parts-walk rooted stack (part ∷ parts) =
    clean_parts-walk rooted (visit rooted stack part) parts

walk-append :
    (rooted : Bool) (stack xs ys : List String)
    → walk rooted stack (xs ++ ys) ≡ walk rooted (walk rooted stack xs) ys
walk-append rooted stack [] ys = refl
walk-append rooted stack (x ∷ xs) ys = walk-append rooted (visit rooted stack x) xs ys

-- The parts of a directory, the last at the head.
abbrev pub is_rooted : String → Bool
is_rooted base = has_prefix base "/"

abbrev pub parts_of : String → List String
parts_of base = walk (is_rooted base) [] (split base b'/')

abbrev pub written : Bool → List String → String
written rooted stack =
    let text = join_parts (reverse stack) in
    if rooted then "/" <> text else if text == "" then "." else text

clean-written : (s : String) → clean s ≡ written (is_rooted s) (parts_of s)
unfolding clean
clean-written s = rw (clean_parts-walk true [] (split s b'/')) (
    rw (clean_parts-walk false [] (split s b'/'))
      (elim (Bool-cases (has_prefix s "/")) [ inl e ↦ rw e refl | inr e ↦ rw e refl ]))

is_rooted-append :
    (base s : String) → (base == "") ≡ false → is_rooted (base <> "/" <> s) ≡ is_rooted base
unfolding has_prefix
is_rooted-append String.[] s h = absurd (ground arith)
is_rooted-append (String.◌∷◌ c base) s h =
    rw (cons-append c base ("/" <> s))
      (elim (Bool-cases (eqb (code c) b'/')) [ inl e ↦ rw e refl | inr e ↦ rw e refl ])

pub join-written :
    (base key : String)
    → (base == "") ≡ false
    → (key == "") ≡ false
    → join base key
      ≡ written (is_rooted base) (walk (is_rooted base) (parts_of base) (split key b'/'))
unfolding join
join-written base key h k = rw h (
    rw k (
      clean-written (base <> "/" <> key)
      ∙ rw (is_rooted-append base key h) (
          rw (split-append base key) (
            ap (written (is_rooted base))
              (walk-append (is_rooted base) [] (split base b'/') (split key b'/'))))))
