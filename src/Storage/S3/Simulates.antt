-- ===== src/Storage/S3/Simulates.antt =====
-- internal/storage/s3.go: each operation of `S3Store` against that of `MemoryStore`.
use deb_s.Prelude.{
  ℕ, ◌≡◌, refl, sym, ap, Bool, false, ◌||◌, none, some, [], Text, codes, equal, equal_iff, Dict,
  lookup, Error, Result, ok, err, backend, not_found, conflict, ◌>>=◌, Option-cases, Bool-cases,
  Result-cases, inl, inr,
}
use deb_s.Digest.{Codec}
use deb_s.Storage.Key.{join_key}
use deb_s.Storage.Types.{PutOptions}
use deb_s.Storage.Memory
use deb_s.Storage.Memory.{MemoryStore, MemoryObject, physical_key, new_object, write_object}
use deb_s.Storage.S3
use deb_s.Storage.S3.Inputs.{S3Store, head_info, put_input, when_set, to_string}
use deb_s.Storage.S3.{unless_settled}
use deb_s.Storage.S3.Api.{Client}
use deb_s.Storage.S3.Errors.{map_s3_error}
use deb_s.Storage.S3.Bucket.{Bucket, stored, head_output}

abbrev pub as_memory : Text → Dict MemoryObject → MemoryStore
as_memory prefix objects = record { prefix = prefix; objects = objects }

absent_lem : (key : Text) → map_s3_error key (backend (codes "NoSuchKey")) ≡ not_found key
unfolding map_s3_error equal
absent_lem key = refl

pub absent_head_lem : (key : Text) → map_s3_error key (backend (codes "NotFound")) ≡ not_found key
unfolding map_s3_error equal
absent_head_lem key = refl

pub refused_lem :
    (key : Text) → map_s3_error key (backend (codes "PreconditionFailed")) ≡ conflict key
unfolding map_s3_error equal
refused_lem key = refl

module _ {S : Type 0} (c : Codec) (client : Client S) (b : Bucket S c client) (s3 : S3Store) where
  -- The store in memory that shows the bucket.
  abbrev pub view : S → MemoryStore
  view s = as_memory s3.prefix (b.objects s)

  -- The same answer, and the same objects afterwards.
  abbrev pub Agrees : {A : Type 0} → Result A × S → Result A × MemoryStore → Type 0
  Agrees x y = (x.0 ≡ y.0) × (view x.1 ≡ y.1)

  -- The key in the bucket is one that S3 takes.
  abbrev pub HasKey : Text → Type 0
  HasKey key = (p : Text) → join_key s3.prefix key ≡ ok p → b.IsKey p

  module _ (s : S) (key : Text) (has_key : HasKey key) where
    pub get-Agrees : Agrees (S3.get client s3 key s) (Memory.get none key (view s))
    unfolding S3.get Memory.get physical_key ◌>>=◌
    get-Agrees = elim (Result-cases (join_key s3.prefix key)) [
      | inr (e, bad) ↦ rw bad (refl, refl)
      | inl (p, good) ↦ elim (Option-cases (lookup p (b.objects s))) [
        | inl gone ↦
            rw good (
              rw gone (rw (b.get_absent s p (has_key p good) gone) (ap err (absent_lem key), refl)))
        | inr (o, there) ↦ rw good (rw there (rw (b.get_present s p o there) (refl, refl)))
      ]
    ]

  pub head_output_lem :
      (s : S) (key p : Text) (o : MemoryObject)
      → lookup p (b.objects s) ≡ some o
      → head_info key (head_output b.quoted o.info) ≡ record o.info { key = key }
  unfolding head_info
  head_output_lem s key p o there = let (etag, same, acl, star) = b.plain s p o there in cc

  module _ (s : S) (key p : Text) (valid : join_key s3.prefix key ≡ ok p) where
    pub head_present :
        (o : MemoryObject)
        → lookup p (b.objects s) ≡ some o
        → S3.head client s3 key s ≡ (ok (record o.info { key = key }), s)
    unfolding S3.head ◌>>=◌
    head_present o there =
        rw valid (rw (b.head_present s p o there) (rw (head_output_lem s key p o there) refl))

    pub head_absent :
        b.IsKey p
        → lookup p (b.objects s) ≡ none
        → S3.head client s3 key s ≡ (err (not_found key), s)
    unfolding S3.head ◌>>=◌
    head_absent k gone = rw valid (rw (b.head_absent s p k gone) (rw absent_head_lem refl))

  head_invalid :
      (s : S) (key : Text) (e : Error)
      → join_key s3.prefix key ≡ err e
      → S3.head client s3 key s ≡ (err e, s)
  unfolding S3.head ◌>>=◌
  head_invalid s key e bad = rw bad refl

  pub head-Agrees :
      (s : S) (key : Text)
      → HasKey key
      → Agrees (S3.head client s3 key s) (Memory.head none key (view s))
  unfolding Memory.head physical_key ◌>>=◌
  head-Agrees s key has_key = elim (Result-cases (join_key s3.prefix key)) [
    | inr (e, bad) ↦ rw (head_invalid s key e bad) (rw bad (refl, refl))
    | inl (p, good) ↦ elim (Option-cases (lookup p (b.objects s))) [
      | inl gone ↦
          rw (head_absent s key p good (has_key p good) gone) (rw good (rw gone (refl, refl)))
      | inr (o, there) ↦ rw (head_present s key p good o there) (rw good (rw there (refl, refl)))
    ]
  ]

to_string-when_set : (t : Text) → to_string (when_set t) ≡ t
unfolding when_set
to_string-when_set t = elim (Bool-cases (equal t [])) [
  | inl e ↦ rw e (sym ((equal_iff t []).0 e))
  | inr e ↦ rw e refl
]

pub when_set_lem : (t : Text) → equal t [] ≡ false → when_set t ≡ some t
unfolding when_set
when_set_lem t e = rw e refl

-- What `Put` of `MemoryStore` is asked for: encryption, where S3Store or the bucket encrypts.
abbrev pub encrypted : Bool → S3Store → PutOptions → PutOptions
encrypted encrypts s3 options = record options {
  server_side_encryption = encrypts || (s3.encryption || options.server_side_encryption);
}

pub stored-put_input :
    (c : Codec) (encrypts : Bool) (s3 : S3Store) (now : ℕ) (p content : Text) (options : PutOptions)
    (absent : Bool)
    → stored c encrypts now (put_input s3 c p content options absent)
      ≡ new_object c now p content (encrypted encrypts s3 options)
unfolding put_input new_object
stored-put_input c encrypts s3 now p content options absent =
    let t = to_string-when_set options.content_type in
    let k = to_string-when_set options.cache_control in cc
