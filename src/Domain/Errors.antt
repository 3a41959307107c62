-- ===== src/Domain/Errors.antt =====
-- Go error values of internal/domain/errors.go and internal/webhooks/store.go, `fmt.Errorf` with
-- `%w`, and `errors.Is`.
use artifact_registry_servic.Base.{String, ◌<>◌, Bool, true, false}

-- The package-level error variables.
pub data Sentinel : Type 0 where
  not_found already_exists invalid_version invalid_input no_channel_history : Sentinel
  signed_url_unsupported delivery_not_found not_dead_letter : Sentinel

-- `wrapped before e after` is `fmt.Errorf` with `%w` between the two texts; `other` is an error
-- that wraps no sentinel.
pub data Error : Type 0 where
  sentinel : Sentinel → Error
  wrapped : String → Error → String → Error
  other : String → Error

abbrev pub sentinel_text : Sentinel → String
sentinel_text not_found = "not found"
sentinel_text already_exists = "version already exists"
sentinel_text invalid_version = "invalid version: must be vMAJOR.MINOR.PATCH"
sentinel_text invalid_input = "invalid input"
sentinel_text no_channel_history = "no previous version to roll back to"
sentinel_text signed_url_unsupported = "signed URLs not supported by this storage backend"
sentinel_text delivery_not_found = "webhook delivery not found"
sentinel_text not_dead_letter = "delivery is not in dead_letter state and cannot be replayed"

-- `err.Error()`.
unfoldable pub error_text : Error → String
error_text (sentinel s) = sentinel_text s
error_text (wrapped before e after) = before <> error_text e <> after
error_text (other s) = s

abbrev pub same_sentinel : Sentinel → Sentinel → Bool
same_sentinel not_found not_found = true
same_sentinel already_exists already_exists = true
same_sentinel invalid_version invalid_version = true
same_sentinel invalid_input invalid_input = true
same_sentinel no_channel_history no_channel_history = true
same_sentinel signed_url_unsupported signed_url_unsupported = true
same_sentinel delivery_not_found delivery_not_found = true
same_sentinel not_dead_letter not_dead_letter = true
same_sentinel _ _ = false

-- `errors.Is(err, target)`.
abbrev pub is : Error → Sentinel → Bool
is (sentinel s) target = same_sentinel s target
is (wrapped before e after) target = is e target
is (other s) target = false
