-- ===== src/Registry/Version.antt =====
-- `semverRE` and `normalizeVersion` of internal/service/registry.go.
pub mod Grammar
pub mod Normal
use Prim.Native.Char.{code}
use Prim.Native.String
use artifact_registry_servic.Base.{
  ℕ, String, ◌<>◌, Bool, true, false, not, ◌&&◌, ◌||◌, leb, eqb, has_prefix, trim_space,
  if◌then◌else◌,
}
use artifact_registry_servic.Domain.Errors.{sentinel, invalid_version}
use artifact_registry_servic.Exec.{Result, ok, err}

abbrev pub is_digit : ℕ → Bool
is_digit c = leb b'0' c && leb c b'9'

-- The class `[a-zA-Z0-9.]`.
abbrev pub is_label : ℕ → Bool
is_label c = (leb b'a' c && leb c b'z') || (leb b'A' c && leb c b'Z') || is_digit c || eqb c b'.'

-- A matcher of the rest of a text.
abbrev pub Matcher : Type 0
Matcher = String → Bool

-- `$`.
unfoldable pub at_end : Matcher
at_end String.[] = true
at_end (String.◌∷◌ c s) = false

-- One character, then the rest.
unfoldable pub char_then : ℕ → Matcher → Matcher
char_then d next String.[] = false
char_then d next (String.◌∷◌ c s) = eqb (code c) d && next s

-- `class+`, then the rest.
unfoldable pub some_then : (ℕ → Bool) → Matcher → Matcher
some_then class next String.[] = false
some_then class next (String.◌∷◌ c s) = class (code c) && (next s || some_then class next s)

-- `(first)?`, then the rest: `first` matches its part and the rest.
unfoldable pub optional : (Matcher → Matcher) → Matcher → Matcher
optional first next s = first next s || next s

-- `(\+[a-zA-Z0-9.]+)?$`.
unfoldable pub build_then_end : Matcher
unfolding optional char_then some_then at_end
build_then_end = optional (λ next. char_then b'+' (some_then is_label next)) at_end

-- `(-[a-zA-Z0-9.]+)?` and what follows.
unfoldable pub labels : Matcher
unfolding build_then_end
labels = optional (λ next. char_then b'-' (some_then is_label next)) build_then_end

-- `\d+\.\d+\.\d+` and what follows.
unfoldable pub numbers : Matcher
unfolding labels
numbers =
    some_then is_digit
      (char_then b'.' (some_then is_digit (char_then b'.' (some_then is_digit labels))))

-- `semverRE.MatchString`.
unfoldable pub is_semver : Matcher
unfolding numbers
is_semver = optional (char_then b'v') numbers

abbrev pub with_v : String → String
with_v v = if not (has_prefix v "v") then "v" <> v else v

unfoldable pub normalize_version : String → Result String
unfolding is_semver trim_space has_prefix
normalize_version v =
    let v' = trim_space v in
    if not (is_semver v') then err (sentinel invalid_version) else ok (with_v v')
