-- ===== src/Sqlite/Errors.antt =====
-- `isUniqueViolation` of sqlite.go, with its own search in a text.
pub mod Search
use artifact_registry_servic.Base.{String, ◌==◌, Bool, ◌&&◌, ◌||◌, leb, ltb, byte_len, has_prefix}
use artifact_registry_servic.Domain.Errors.{Error, error_text}

-- The loop over `i`: the slice of `len(sub)` bytes at each position that has room for it. At a
-- position without room the prefix test fails.
unfoldable pub contains_str : String → String → Bool
unfolding has_prefix
contains_str String.[] sub = has_prefix "" sub
contains_str (String.◌∷◌ c s) sub = has_prefix (String.◌∷◌ c s) sub || contains_str s sub

unfoldable pub contains : String → String → Bool
unfolding contains_str byte_len
contains s sub =
    leb (byte_len sub) (byte_len s) && (s == sub || (ltb 0 (byte_len s) && contains_str s sub))

unfoldable pub is_unique_violation : Error → Bool
unfolding contains error_text
is_unique_violation e =
    contains (error_text e) "UNIQUE constraint failed"
    || contains (error_text e) "unique constraint"
