-- ===== src/Registry/Version/Normal.antt =====
-- What `normalizeVersion` returns.
use Prim.Native.Char.{Char, code}
use text.Mathlib.TextLemmas.{nil-append, cons-append}
use artifact_registry_servic.Base.{
  ℕ, String, ◌<>◌, ◌≡◌, refl, sym, ap, ◌∙◌, ◌⊎◌, inl, inr, Bool, true, false, not, ◌||◌, arith, eqb,
  all_chars, Bool-cases, is_space, has_prefix, trim_space,
}
use artifact_registry_servic.Base.Text.Trim.{all_chars_weaken, trim_space_solid}
use mathlib.Core.Bool.{false≢true}
use artifact_registry_servic.Domain.Errors.{sentinel, invalid_version}
use artifact_registry_servic.Exec.{ok, err, ok_injective, ok≢err}
use artifact_registry_servic.Registry.Version.{
  is_digit, is_label, Matcher, at_end, char_then, some_then, optional, build_then_end, labels,
  numbers, is_semver, with_v, normalize_version,
}

-- The characters that a version is written in.
abbrev pub is_version_char : ℕ → Bool
is_version_char c = is_label c || eqb c b'-' || eqb c b'+'

abbrev pub is_version_text : String → Bool
is_version_text = all_chars is_version_char

abbrev Writes : Matcher → Type 0
Writes m = (s : String) → m s ≡ true → is_version_text s ≡ true

at_end-Writes : Writes at_end
unfolding at_end
at_end-Writes String.[] h = refl
at_end-Writes (String.◌∷◌ c s) h = cc

char_then-Writes :
    (d : ℕ) (next : Matcher) → is_version_char d ≡ true → Writes next → Writes (char_then d next)
unfolding char_then
char_then-Writes d next k w String.[] h = cc
char_then-Writes d next k w (String.◌∷◌ c s) h = ground (arith, w s)

some_then-Writes :
    (class : ℕ → Bool) (next : Matcher)
    → ((c : ℕ) → class c ≡ true → is_version_char c ≡ true)
    → Writes next
    → Writes (some_then class next)
unfolding some_then
some_then-Writes class next k w String.[] h = cc
some_then-Writes class next k w (String.◌∷◌ c s) h =
    let here : is_version_char (code c) ≡ true = k (code c) (ground arith) in
    let later : is_version_text s ≡ true = ground (arith, w s, some_then-Writes class next k w s) in
    rw here later

optional-Writes :
    (first : Matcher → Matcher) (next : Matcher)
    → Writes (first next)
    → Writes next
    → Writes (optional first next)
unfolding optional
optional-Writes first next f w s h = ground (arith, f s, w s)

digit_char : (c : ℕ) → is_digit c ≡ true → is_version_char c ≡ true
digit_char c h = ground arith

label_char : (c : ℕ) → is_label c ≡ true → is_version_char c ≡ true
label_char c h = rw h

build-Writes : Writes build_then_end
unfolding build_then_end
build-Writes =
    optional-Writes (λ next. char_then b'+' (some_then is_label next)) at_end
      (char_then-Writes b'+' _ refl (some_then-Writes is_label at_end label_char at_end-Writes))
      at_end-Writes

labels-Writes : Writes labels
unfolding labels
labels-Writes =
    optional-Writes (λ next. char_then b'-' (some_then is_label next)) build_then_end
      (char_then-Writes b'-' _ refl
        (some_then-Writes is_label build_then_end label_char build-Writes))
      build-Writes

numbers-Writes : Writes numbers
unfolding numbers
numbers-Writes = some_then-Writes is_digit _ digit_char (
    char_then-Writes b'.' _ refl (
      some_then-Writes is_digit _ digit_char
        (char_then-Writes b'.' _ refl (some_then-Writes is_digit labels digit_char labels-Writes))))

is_semver-Writes : Writes is_semver
unfolding is_semver
is_semver-Writes =
    optional-Writes (char_then b'v') numbers (char_then-Writes b'v' numbers refl numbers-Writes)
      numbers-Writes

solid_char : (c : ℕ) → is_version_char c ≡ true → not (is_space c) ≡ true
unfolding is_space
solid_char c h = ground arith

is_semver_lem : (s : String) → is_semver s ≡ optional (char_then b'v') numbers s
unfolding is_semver
is_semver_lem s = refl

-- A version with its `v`.
abbrev pub IsNormal : String → Type 0
IsNormal w = (is_semver w ≡ true) × (has_prefix w "v" ≡ true)

with_v_cases :
    (c : Char) (s : String)
    → ((eqb (code c) b'v' ≡ true)
        × (with_v (String.◌∷◌ c s) ≡ String.◌∷◌ c s)
        × (has_prefix (String.◌∷◌ c s) "v" ≡ true))
      ⊎ ((eqb (code c) b'v' ≡ false) × (with_v (String.◌∷◌ c s) ≡ "v" <> String.◌∷◌ c s))
unfolding has_prefix
with_v_cases c String.[] = elim (Bool-cases (eqb (code c) b'v')) [
  | inl e ↦ inl (e, rw e refl, rw e refl)
  | inr e ↦ inr (e, rw e refl)
]
with_v_cases c (String.◌∷◌ d s) = elim (Bool-cases (eqb (code c) b'v')) [
  | inl e ↦ inl (e, rw e refl, rw e refl)
  | inr e ↦ inr (e, rw e refl)
]

has_prefix-v : (s : String) → has_prefix ("v" <> s) "v" ≡ true
unfolding has_prefix
has_prefix-v String.[] = refl
has_prefix-v (String.◌∷◌ c s) = rw (cons-append _ "" (String.◌∷◌ c s)) refl

is_semver-empty : is_semver "" ≡ false
unfolding is_semver
is_semver-empty = refl

semver-v : (v : String) → numbers v ≡ true → is_semver ("v" <> v) ≡ true
semver-v v h =
    rw (cons-append _ "" v, nil-append v) (rw is_semver_lem (unfold optional char_then in rw h))

numbers_of_semver :
    (c : Char) (s : String)
    → eqb (code c) b'v' ≡ false
    → is_semver (String.◌∷◌ c s) ≡ true
    → numbers (String.◌∷◌ c s) ≡ true
numbers_of_semver c s e h =
    unfold optional char_then in ground (arith, is_semver_lem (String.◌∷◌ c s))

with_v-IsNormal : (v : String) → is_semver v ≡ true → IsNormal (with_v v)
with_v-IsNormal String.[] h = absurd (false≢true (sym is_semver-empty ∙ h))
with_v-IsNormal (String.◌∷◌ c s) h = elim (with_v_cases c s) [
  | inl (e, same, pre) ↦ rw same (h, pre)
  | inr (e, put) ↦ rw put (semver-v _ (numbers_of_semver c s e h), has_prefix-v (String.◌∷◌ c s))
]

pub normalize_version_cases :
    (v : String)
    → ((is_semver (trim_space v) ≡ true) × (normalize_version v ≡ ok (with_v (trim_space v))))
      ⊎ ((is_semver (trim_space v) ≡ false)
          × (normalize_version v ≡ err (sentinel invalid_version)))
unfolding normalize_version
normalize_version_cases v = elim (Bool-cases (is_semver (trim_space v))) [
  | inl e ↦ inl (e, rw e refl)
  | inr e ↦ inr (e, rw e refl)
]

normalize_version_normal : (w : String) → IsNormal w → normalize_version w ≡ ok w
normalize_version_normal w (match, pre) =
    let same : trim_space w ≡ w =
      trim_space_solid w
        (all_chars_weaken is_version_char _ solid_char w (is_semver-Writes w match)) in
    elim (normalize_version_cases w) [
      | inl (_, e) ↦ e ∙ rw same (rw pre refl)
      | inr (no_match, _) ↦ absurd (false≢true (sym no_match ∙ ap is_semver same ∙ match))
    ]

-- What `normalizeVersion` returns is a version of the grammar that begins with `v`, has no white
-- space and no slash, and is returned as it is when it is normalized once more.
pub normalize_version-IsNormal :
    (v w : String)
    → normalize_version v ≡ ok w
    → (is_semver w ≡ true)
      × (has_prefix w "v" ≡ true)
      × (is_version_text w ≡ true)
      × (normalize_version w ≡ ok w)
normalize_version-IsNormal v w h = elim (normalize_version_cases v) [
  | inl (match, e) ↦
      let normal : IsNormal w =
        rw (← ok_injective (sym e ∙ h)) (with_v-IsNormal (trim_space v) match) in
      (normal.0, normal.1, is_semver-Writes w normal.0, normalize_version_normal w normal)
  | inr (_, e) ↦ absurd (ok≢err (sym h ∙ e))
]
