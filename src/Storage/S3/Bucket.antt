-- ===== src/Storage/S3/Bucket.antt =====
-- What the documentation of S3 says of a bucket whose objects were stored by `PutObject`, as far as
-- internal/storage/s3.go relies on it.
use deb_s.Prelude.{
  ℕ, ◌≤◌, ◌≡◌, Bool, true, false, ◌||◌, ◌&&◌, leb, none, some, [], ◌∷◌, Text, codes, Dict, lookup,
  insert, remove, ok, err, backend, equal, length, trim, is_space, All,
}
use deb_s.Digest.{Codec, encode_to_string}
use deb_s.Storage.Types.{ObjectInfo}
use deb_s.Storage.Memory.{MemoryObject}
use deb_s.Storage.Memory.Etag.{trim_etag}
use deb_s.Storage.S3.Inputs.{to_string}
use deb_s.Storage.S3.Api.{Client, HeadOutput, PutInput}

-- A header's value that arrives as it was sent: printable ASCII without spaces around it.
abbrev pub IsHeader : Text → Type 0
IsHeader t = All (λ c. (leb 32 c && leb c 126) ≡ true) t × (trim is_space t ≡ t)

-- A request within the limits of `PutObject`, whose headers arrive as they were sent. Its metadata is
-- the one entry that the program sends: S3 writes the names of metadata in lower case.
pub record IsStorable (IsKey : Text → Type 0) (input : PutInput) : Type 0 where
  pub key : IsKey input.key
  pub size : input.content_length ≤ 5368709120
  pub content_type : (type : Text) × (input.content_type ≡ some type) × IsHeader type
  pub cache_control : IsHeader (to_string input.cache_control)
  pub metadata :
      (digest : Text) × (input.metadata ≡ (codes "md5", digest) ∷ [])
      × IsHeader digest
      × (length digest ≤ 2045)

-- The object that a request stores, in a bucket that encrypts all objects or not.
abbrev pub stored : Codec → Bool → ℕ → PutInput → MemoryObject
stored c encrypts now input = record {
  content = input.body;
  info = record {
    key = input.key;
    size = input.content_length;
    etag = encode_to_string (c.md5_sum input.body);
    metadata = input.metadata;
    content_type = to_string input.content_type;
    cache_control = to_string input.cache_control;
    acl = [];
    server_side_encryption = encrypts || input.encrypts;
    last_modified = now;
  };
}

-- The answer to a request for an object's metadata.
abbrev pub head_output : (Text → Text) → ObjectInfo → HeadOutput
head_output quoted info = record {
  content_length = some info.size;
  etag = some (quoted info.etag);
  metadata = info.metadata;
  content_type = some info.content_type;
  cache_control = some info.cache_control;
  is_encrypted = info.server_side_encryption;
  last_modified = some info.last_modified;
}

-- `objects` are the objects of the bucket in a state, by key, with the access list left out; `now`
-- is the time that an object stored in a state gets, `quoted` puts an ETag into quotes. `IsKey` holds of
-- the keys that S3 takes, which are at most 1024 bytes long, and `encrypts` is whether the bucket
-- encrypts every object by default. The client may list, read and write the bucket and set access
-- lists. The state changes only by requests.
pub record Bucket (S : Type 0) (c : Codec) (client : Client S) : Type 1 where
  pub objects : S → Dict MemoryObject
  pub now : S → ℕ
  pub quoted : Text → Text
  pub IsKey : Text → Type 0
  pub encrypts : Bool
  pub putting : PutInput → S → S
  pub deleting : Text → S → S
  pub key_is : (s : S) (p : Text) (o : MemoryObject) → lookup p (objects s) ≡ some o → IsKey p
  pub plain :
      (s : S) (p : Text) (o : MemoryObject)
      → lookup p (objects s) ≡ some o
      → (trim_etag (quoted o.info.etag) ≡ o.info.etag)
        × (trim_etag o.info.etag ≡ o.info.etag)
        × (o.info.acl ≡ [])
        × (equal o.info.etag (codes "*") ≡ false)
  pub get_present :
      (s : S) (p : Text) (o : MemoryObject)
      → lookup p (objects s) ≡ some o
      → client.get_object p s ≡ (ok (ok o.content), s)
  pub get_absent :
      (s : S) (p : Text)
      → IsKey p
      → lookup p (objects s) ≡ none
      → client.get_object p s ≡ (err (backend (codes "NoSuchKey")), s)
  pub head_present :
      (s : S) (p : Text) (o : MemoryObject)
      → lookup p (objects s) ≡ some o
      → client.head_object p s ≡ (ok (head_output quoted o.info), s)
  pub head_absent :
      (s : S) (p : Text)
      → IsKey p
      → lookup p (objects s) ≡ none
      → client.head_object p s ≡ (err (backend (codes "NotFound")), s)
  pub put_done :
      (s : S) (input : PutInput)
      → IsStorable IsKey input
      → input.if_none_match ≡ false
      → client.put_object input s ≡ (ok tt, putting input s)
  pub put_new :
      (s : S) (input : PutInput)
      → IsStorable IsKey input
      → lookup input.key (objects s) ≡ none
      → client.put_object input s ≡ (ok tt, putting input s)
  pub put_refused :
      (s : S) (input : PutInput) (o : MemoryObject)
      → input.if_none_match ≡ true
      → lookup input.key (objects s) ≡ some o
      → client.put_object input s ≡ (err (backend (codes "PreconditionFailed")), s)
  pub objects-put :
      (s : S) (input : PutInput)
      → IsStorable IsKey input
      → objects (putting input s) ≡ insert input.key (stored c encrypts (now s) input) (objects s)
  pub delete_done :
      (s : S) (p : Text) → IsKey p → client.delete_object p none s ≡ (ok tt, deleting p s)
  pub delete_matched :
      (s : S) (p etag : Text) (o : MemoryObject)
      → lookup p (objects s) ≡ some o
      → equal o.info.etag etag ≡ true
      → client.delete_object p (some etag) s ≡ (ok tt, deleting p s)
  pub delete_refused :
      (s : S) (p etag : Text) (o : MemoryObject)
      → lookup p (objects s) ≡ some o
      → equal o.info.etag etag ≡ false
      → equal etag (codes "*") ≡ false
      → client.delete_object p (some etag) s ≡ (err (backend (codes "PreconditionFailed")), s)
  pub objects-delete : (s : S) (p : Text) → objects (deleting p s) ≡ remove p (objects s)
