-- ===== src/Storage/Types.antt =====
-- internal/storage/store.go: the options, what a store tells of an object, and the interface. A
-- body is what reading it to the end gives, or the error of the read.
use deb_s.Prelude.{ℕ, Bool, List, Option, Text, Dict, Result, Exec}

pub record ObjectInfo : Type 0 where
  pub key : Text
  pub size : ℕ
  pub etag : Text
  pub metadata : Dict Text
  pub content_type : Text
  pub cache_control : Text
  pub acl : Text
  pub server_side_encryption : Bool
  pub last_modified : ℕ

pub record PutOptions : Type 0 where
  pub content_type : Text
  pub cache_control : Text
  pub metadata : Dict Text
  pub fail_if_exists : Bool
  pub create_only : Bool
  pub server_side_encryption : Bool

pub record CopyOptions : Type 0 where
  pub source_etag : Text
  pub create_only : Bool
  pub fail_if_exists : Bool

-- `Store`, over the state `S` of whatever is behind it; `delete_if_match` is there where the store
-- is a `ConditionalDeleter`.
pub record Store (S : Type 0) : Type 0 where
  pub get : Text → Exec S Text
  pub head : Text → Exec S ObjectInfo
  pub put : Text → Result Text → PutOptions → Exec S (Unit {0})
  pub delete : Text → Exec S (Unit {0})
  pub copy : Text → Text → CopyOptions → Exec S (Unit {0})
  pub list : Text → Exec S (List ObjectInfo)
  pub delete_if_match : Option (Text → Text → Exec S (Unit {0}))
