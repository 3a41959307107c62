-- ===== src/Domain.antt =====
-- internal/domain: the records that the service stores, and its errors.
pub mod Errors
use artifact_registry_servic.Base.{ℕ, String, List}

-- `Artifact`. A map is its list of entries; a `time.Time` is nanoseconds since 1970 in UTC.
pub record Artifact : Type 0 where
  pub id : String
  pub type : String
  pub name : String
  pub version : String
  pub sha256 : String
  pub size_bytes : ℕ
  pub content_type : String
  pub metadata : List (String × String)
  pub storage_key : String
  pub created_at : ℕ

pub record ChannelPointer : Type 0 where
  pub channel : String
  pub type : String
  pub name : String
  pub version : String
  pub artifact_id : String
  pub previous_version : String
  pub promoted_at : ℕ
  pub promoted_by : String
