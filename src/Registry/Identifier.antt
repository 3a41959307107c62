-- ===== src/Registry/Identifier.antt =====
-- `validateIdentifier`, `isAlphaNum` and `storageKey` of internal/service/registry.go.
pub mod Laws
use Prim.Native.Char.{code}
use Prim.Native.String
use artifact_registry_servic.Base.{
  ℕ, String, ◌<>◌, ◌==◌, Bool, not, ◌&&◌, ◌||◌, leb, ltb, eqb, byte_len, trim_space, if◌then◌else◌,
}
use artifact_registry_servic.Domain.Errors.{sentinel, wrapped, invalid_input}
use artifact_registry_servic.Exec.{Result, ok, err}
use artifact_registry_servic.Platform.{Platform}

abbrev pub is_alpha_num : ℕ → Bool
is_alpha_num c =
    (leb b'a' c && leb c b'z') || (leb b'A' c && leb c b'Z') || (leb b'0' c && leb c b'9')

-- The loop over the runes of the trimmed text.
unfoldable pub check_runes : Platform → String → String → Result (Unit {0})
check_runes go whole String.[] = ok tt
check_runes go whole (String.◌∷◌ c s) =
    let rest = check_runes go whole s in
    if not (is_alpha_num (code c))
      && (not (eqb (code c) b'-') && (not (eqb (code c) b'_') && not (eqb (code c) b'.')))
    then err (
        wrapped "" (sentinel invalid_input)
          (": " <> go.quote whole <> " contains invalid character " <> go.quote_rune (code c)))
    else rest

unfoldable pub validate_identifier : Platform → String → Result (Unit {0})
unfolding check_runes trim_space byte_len
validate_identifier go s =
    let s' = trim_space s in
    if s' == "" || ltb 128 (byte_len s') then err (sentinel invalid_input) else check_runes go s' s'

unfoldable pub storage_key : String → String → String → String
storage_key type name version = type <> "/" <> name <> "/" <> version <> "/artifact"
