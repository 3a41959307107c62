-- ===== src/Platform.antt =====
-- What the service takes from Go's library and from the drivers without its text standing in the
-- repository: every definition that uses it has it as a parameter.
use artifact_registry_servic.Base.{ℕ, String}
use artifact_registry_servic.World.{Bytes}

-- `quote` and `quote_rune` are the verb %q on a string and on a character; the hashes are those of
-- crypto/sha256 and crypto/hmac, from the message to the digest.
pub record Platform : Type 0 where
  pub quote : String → String
  pub quote_rune : ℕ → String
  pub sha256 : Bytes → Bytes
  pub hmac_sha256 : Bytes → Bytes → Bytes
