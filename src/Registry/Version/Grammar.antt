-- ===== src/Registry/Version/Grammar.antt =====
-- The language of `semverRE`, described by its parts.
use Prim.Native.Char.{Char, code}
use text.Mathlib.TextLemmas.{
  nil-append, cons-append, nil≢cons, cons≢nil, head-eq_of_cons-eq, tail-eq_of_cons-eq,
}
use artifact_registry_servic.Base.{
  ℕ, String, ◌<>◌, ◌≡◌, refl, sym, ap, ◌∙◌, ◌↔◌, ◌⊎◌, inl, inr, Bool, true, false, ◌||◌, arith,
  all_chars, Bool-cases,
}
use artifact_registry_servic.Registry.Version.{
  is_digit, is_label, Matcher, at_end, char_then, some_then, optional, build_then_end, labels,
  numbers, is_semver,
}

abbrev pub is_full : String → Bool
is_full String.[] = false
is_full (String.◌∷◌ c s) = true

-- A text of at least one character, all of the class.
abbrev pub IsRun : (ℕ → Bool) → String → Type 0
IsRun class s = (all_chars class s ≡ true) × (is_full s ≡ true)

-- A run of the class, and then a text of `Rest`.
abbrev pub Splits : (ℕ → Bool) → (String → Type 0) → String → Type 0
Splits class Rest s = (a : String) × (b : String) × (s ≡ a <> b) × IsRun class a × Rest b

-- A given character, and then a text of `Rest`.
abbrev pub Begins : ℕ → (String → Type 0) → String → Type 0
Begins d Rest s = (c : Char) × (b : String) × (s ≡ String.◌∷◌ c b) × (code c ≡ d) × Rest b

abbrev pub Decides : Matcher → (String → Type 0) → Type 0
Decides m L = (s : String) → (m s ≡ true) ↔ L s

module _ (class : ℕ → Bool) (next : Matcher) (L : String → Type 0) (dec : Decides next L) where
  some_then_sound : (s : String) → some_then class next s ≡ true → Splits class L s
  unfolding some_then
  some_then_sound String.[] h = cc
  some_then_sound (String.◌∷◌ c s) h =
      let here : class (code c) ≡ true = ground arith in
      elim (Bool-cases (next s)) [
        | inl e ↦ (
          String.◌∷◌ c "",
          s,
          sym (cons-append c "" s ∙ ap (String.◌∷◌ c) (nil-append s)),
          (rw here, refl),
          (dec s).0 e,
        )
        | inr e ↦
            let later : some_then class next s ≡ true = ground arith in
            let (a, b, whole, (all, full), rest) = some_then_sound s later in
            (
              String.◌∷◌ c a,
              b,
              ap (String.◌∷◌ c) whole ∙ sym (cons-append c a b),
              (ground arith, refl),
              rest,
            )
      ]

  some_then_complete : (a b : String) → IsRun class a → L b → some_then class next (a <> b) ≡ true
  unfolding some_then
  some_then_complete String.[] b run rest = cc (run.1)
  some_then_complete (String.◌∷◌ c String.[]) b (all, _) rest =
      rw cons-append (rw nil-append (ground (arith, (dec b).1 rest)))
  some_then_complete (String.◌∷◌ c (String.◌∷◌ d a)) b (all, _) rest =
      rw cons-append
        (ground (arith, some_then_complete (String.◌∷◌ d a) b ((ground arith), refl) rest))

  -- `class+` and then what `next` accepts.
  pub some_then-Splits : Decides (some_then class next) (Splits class L)
  some_then-Splits s =
      (some_then_sound s, λ (a, b, whole, run, rest). rw whole (some_then_complete a b run rest))

module _ (d : ℕ) (next : Matcher) (L : String → Type 0) (dec : Decides next L) where
  char_then-Begins : Decides (char_then d next) (Begins d L)
  unfolding char_then
  char_then-Begins String.[] = (λ h. cc, λ (c, b, whole, _, _). absurd (nil≢cons whole))
  char_then-Begins (String.◌∷◌ c s) = (
    λ h. let here : code c ≡ d = ground arith in (c, s, refl, here, (dec s).0 (ground arith)),
    λ (x, b, whole, here, rest).
        let same : next s ≡ true = (dec s).1 (rw (tail-eq_of_cons-eq whole) rest) in
        ground (arith, same, ap code (head-eq_of_cons-eq whole)),
  )

or_iff {ℓ κ} :
    {A : Type ℓ} {B : Type κ} (a b : Bool)
    → (a ≡ true) ↔ A
    → (b ≡ true) ↔ B
    → ((a || b) ≡ true) ↔ (A ⊎ B)
or_iff true b p q = (λ h. inl (p.0 refl), λ h. refl)
or_iff false b p q =
    (λ h. inr (q.0 h), λ h. elim h [ inl x ↦ (let e : false ≡ true = p.1 x in cc) | inr y ↦ q.1 y ])

module _ (first : Matcher → Matcher) (next : Matcher) (F L : String → Type 0)
    (dec : Decides (first next) F) (rest : Decides next L) where
  optional-⊎ : Decides (optional first next) (λ s. F s ⊎ L s)
  unfolding optional
  optional-⊎ s = or_iff (first next s) (next s) (dec s) (rest s)

-- The end; build labels behind `+`; pre-release labels behind `-`; three numbers; perhaps a `v`.
abbrev pub IsEnd : String → Type 0
IsEnd s = s ≡ ""

abbrev pub IsBuild : String → Type 0
IsBuild s = Begins b'+' (Splits is_label IsEnd) s ⊎ IsEnd s

abbrev pub IsLabels : String → Type 0
IsLabels s = Begins b'-' (Splits is_label IsBuild) s ⊎ IsBuild s

abbrev pub IsNumbers : String → Type 0
IsNumbers = Splits is_digit (Begins b'.' (Splits is_digit (Begins b'.' (Splits is_digit IsLabels))))

abbrev pub IsSemver : String → Type 0
IsSemver s = Begins b'v' IsNumbers s ⊎ IsNumbers s

at_end-IsEnd : Decides at_end IsEnd
unfolding at_end
at_end-IsEnd String.[] = (λ h. refl, λ h. refl)
at_end-IsEnd (String.◌∷◌ c s) = (λ h. cc, λ h. absurd (cons≢nil h))

build_then_end-IsBuild : Decides build_then_end IsBuild
unfolding build_then_end
build_then_end-IsBuild =
    optional-⊎ (λ next. char_then b'+' (some_then is_label next)) at_end _ IsEnd
      (char_then-Begins b'+' _ _ (some_then-Splits is_label at_end IsEnd at_end-IsEnd)) at_end-IsEnd

labels-IsLabels : Decides labels IsLabels
unfolding labels
labels-IsLabels =
    optional-⊎ (λ next. char_then b'-' (some_then is_label next)) build_then_end _ IsBuild
      (char_then-Begins b'-' _ _
        (some_then-Splits is_label build_then_end IsBuild build_then_end-IsBuild))
      build_then_end-IsBuild

numbers-IsNumbers : Decides numbers IsNumbers
unfolding numbers
numbers-IsNumbers = some_then-Splits is_digit _ _ (
    char_then-Begins b'.' _ _ (
      some_then-Splits is_digit _ _
        (char_then-Begins b'.' _ _ (some_then-Splits is_digit labels IsLabels labels-IsLabels))))

-- The matcher accepts exactly the texts `v?D.D.D` with runs of digits D, perhaps followed by `-` and
-- labels, and perhaps by `+` and labels.
pub is_semver_iff : (s : String) → (is_semver s ≡ true) ↔ IsSemver s
unfolding is_semver
is_semver_iff =
    optional-⊎ (char_then b'v') numbers _ IsNumbers
      (char_then-Begins b'v' numbers IsNumbers numbers-IsNumbers) numbers-IsNumbers
