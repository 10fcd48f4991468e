-- ===== src/Storage/S3/Inputs.antt =====
-- internal/storage/s3.go: `S3Store`, what it sends to the client of the SDK, and what it makes of the
-- answers.
use deb_s.Prelude.{
  ℕ, Bool, false, ◌||◌, ◌&&◌, not, Option, none, some, List, [], ◌∷◌, ◌++◌, if◌then◌else◌, Text,
  codes, equal, has_suffix, length, insert, Result, ok, err, failed, no_continuation, conflict,
  is_not_found, and_then,
}
use deb_s.GoPath.{slash}
use deb_s.Digest.{Codec, encode_to_string}
use deb_s.Storage.Key.{join_key, normalize_prefix, logical_key, trim_slashes}
use deb_s.Storage.Types.{ObjectInfo, PutOptions, CopyOptions}
use deb_s.Storage.Memory.Etag.{trim_etag, object_md5}
use deb_s.Storage.S3.Api.{HeadOutput, PutInput, CopyInput, Listed, ListOutput}

-- The client has its own place.
pub record S3Store : Type 0 where
  pub bucket : Text
  pub prefix : Text
  pub acl : Text
  pub encryption : Bool

-- `newS3Store`
unfoldable pub new_s3_store : Text → Text → Text → Bool → S3Store
unfolding trim_slashes
new_s3_store bucket prefix acl encryption = record {
  bucket = bucket;
  prefix = trim_slashes prefix;
  acl = acl;
  encryption = encryption;
}

-- `aws.ToString`, `aws.ToInt64`, and a string that is sent only if it is not empty.
abbrev pub to_string : Option Text → Text
to_string none = []
to_string (some t) = t

abbrev pub to_int : Option ℕ → ℕ
to_int none = 0
to_int (some n) = n

abbrev pub to_bool : Option Bool → Bool
to_bool none = false
to_bool (some b) = b

unfoldable pub when_set : Text → Option Text
unfolding equal
when_set t = if equal t [] then none else some t

unfoldable pub head_info : Text → HeadOutput → ObjectInfo
unfolding trim_etag
head_info key o = record {
  key = key;
  size = to_int o.content_length;
  etag = trim_etag (to_string o.etag);
  metadata = o.metadata;
  content_type = to_string o.content_type;
  cache_control = to_string o.cache_control;
  acl = [];
  server_side_encryption = o.is_encrypted;
  last_modified = to_int o.last_modified;
}

-- The request that `Put` sends.
unfoldable pub put_input : S3Store → Codec → Text → Text → PutOptions → Bool → PutInput
unfolding when_set
put_input s3 c physical content options is_absent = record {
  key = physical;
  body = content;
  content_length = length content;
  metadata = insert (codes "md5") (encode_to_string (c.md5_sum content)) options.metadata;
  acl = when_set s3.acl;
  content_type = when_set options.content_type;
  cache_control = when_set options.cache_control;
  encrypts = s3.encryption || options.server_side_encryption;
  if_none_match = options.create_only || (options.fail_if_exists && is_absent);
}

unfoldable pub copy_input : S3Store → (Text → Text) → Text → Text → CopyOptions → Bool → CopyInput
unfolding when_set trim_etag
copy_input s3 path_escape source destination options is_absent = record {
  key = destination;
  copy_source = path_escape (s3.bucket ++ slash ∷ source);
  acl = when_set s3.acl;
  encrypts = s3.encryption;
  source_if_match =
      (if equal options.source_etag [] then none else some (trim_etag options.source_etag));
  if_none_match = (options.create_only || options.fail_if_exists) && is_absent;
}

-- What an object that is there means for a `Put`: none, or the call's result.
unfoldable pub settled : PutOptions → Text → Text → Result ObjectInfo → Option (Result (Unit {0}))
unfolding equal object_md5
settled options key digest (ok existing) =
    if equal (object_md5 existing) digest
    then some (ok tt)
    else if options.fail_if_exists || options.create_only
    then some (err (conflict key))
    else none
settled options key digest (err e) = if is_not_found e then none else some (err e)

abbrev pub is_absent : {A : Type 0} → Result A → Bool
is_absent (ok _) = false
is_absent (err e) = is_not_found e

-- The digests agree and are there.
unfoldable pub same_digest : ObjectInfo → ObjectInfo → Bool
unfolding equal object_md5
same_digest source destination =
    not (equal (object_md5 source) []) && equal (object_md5 source) (object_md5 destination)

unfoldable pub copy_settled :
    CopyOptions → Text → ObjectInfo → Result ObjectInfo → Option (Result (Unit {0}))
unfolding same_digest
copy_settled options destination source (ok there) =
    if same_digest source there
    then some (ok tt)
    else if options.create_only || options.fail_if_exists
    then some (err (conflict destination))
    else none
copy_settled options destination source (err e) = if is_not_found e then none else some (err e)

-- The prefix of the physical keys that are listed.
unfoldable pub listed_prefix : Text → Text → Result Text
unfolding equal has_suffix normalize_prefix join_key
listed_prefix prefix wanted =
    if equal wanted []
    then and_then (normalize_prefix prefix) (λ p. ok (if equal p [] then [] else p ++ slash ∷ []))
    else and_then (join_key prefix wanted)
        λ physical. ok (if has_suffix wanted (slash ∷ []) then physical ++ slash ∷ [] else physical)

abbrev pub info_of : Option Text → Listed → List ObjectInfo
info_of none o = []
info_of (some logical) o =
    record {
      key = logical;
      size = to_int o.size;
      etag = trim_etag (to_string o.etag);
      metadata = [];
      content_type = [];
      cache_control = [];
      acl = [];
      server_side_encryption = false;
      last_modified = to_int o.last_modified;
    }
    ∷ []

-- The objects of one page under the prefix of the store.
unfoldable pub page_objects : Text → List Listed → List ObjectInfo
unfolding logical_key trim_etag
page_objects prefix [] = []
page_objects prefix (o ∷ rest) =
    info_of (logical_key prefix (to_string o.key)) o ++ page_objects prefix rest

-- Whether there is another page: its token.
unfoldable pub next_page : ListOutput → Result (Option Text)
unfolding equal
next_page output =
    if not (to_bool output.is_truncated)
    then ok none
    else if equal (to_string output.next_continuation_token) []
    then err (failed no_continuation)
    else ok output.next_continuation_token
