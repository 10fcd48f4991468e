-- ===== src/Storage/S3/Api.antt =====
-- internal/storage/s3.go: `s3API`, with what the store puts into its requests and reads from the
-- answers. The bucket is the same in all requests, and is a part of the client here. A pointer of the
-- SDK is an `Option`.
use deb_s.Prelude.{ℕ, Bool, Option, List, Text, Dict, Result, Exec}

pub record HeadOutput : Type 0 where
  pub content_length : Option ℕ
  pub etag : Option Text
  pub metadata : Dict Text
  pub content_type : Option Text
  pub cache_control : Option Text
  pub is_encrypted : Bool
  pub last_modified : Option ℕ

pub record PutInput : Type 0 where
  pub key : Text
  pub body : Text
  pub content_length : ℕ
  pub metadata : Dict Text
  pub acl : Option Text
  pub content_type : Option Text
  pub cache_control : Option Text
  pub encrypts : Bool
  pub if_none_match : Bool

pub record CopyInput : Type 0 where
  pub key : Text
  pub copy_source : Text
  pub acl : Option Text
  pub encrypts : Bool
  pub source_if_match : Option Text
  pub if_none_match : Bool

pub record Listed : Type 0 where
  pub key : Option Text
  pub size : Option ℕ
  pub etag : Option Text
  pub last_modified : Option ℕ

pub record ListOutput : Type 0 where
  pub contents : List Listed
  pub is_truncated : Option Bool
  pub next_continuation_token : Option Text

-- `get_object` returns the body as reading it to its end does. `delete_object` takes the ETag of
-- `If-Match`, `list_objects` the prefix and the continuation token.
pub record Client (S : Type 0) : Type 0 where
  pub get_object : Text → Exec S (Result Text)
  pub head_object : Text → Exec S HeadOutput
  pub put_object : PutInput → Exec S (Unit {0})
  pub delete_object : Text → Option Text → Exec S (Unit {0})
  pub copy_object : CopyInput → Exec S (Unit {0})
  pub list_objects : Text → Option Text → Exec S ListOutput
