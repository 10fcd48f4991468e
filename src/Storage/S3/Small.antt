-- ===== src/Storage/S3/Small.antt =====
-- A bucket in memory, behind the client of internal/storage/s3.go.
use deb_s.Prelude.{
  ◌≡◌, refl, sym, ◌∙◌, false, Option, none, some, [], ◌∷◌, ◌++◌, if◌then◌else◌, Text, codes, equal,
  Dict, lookup, insert, remove, Result, ok, err, failed, bad_config, backend, Bool-cases, inl, inr,
}
use deb_s.Digest.{Codec, encode_to_string}
use deb_s.Storage.Memory.{MemoryObject}
use deb_s.Storage.Memory.Etag.{trim_etag}
use deb_s.Storage.S3.Api.{Client, PutInput, HeadOutput}
use deb_s.Storage.S3.Bucket.{Bucket, stored, head_output}

-- Digests that tell the empty text from the others.
abbrev pub coarse : Codec
coarse = record {
  md5_sum = λ content. if equal content [] then 0 ∷ [] else 1 ∷ [];
  sha1_sum = λ content. content;
  sha256_sum = λ content. content;
  gzip = λ content. content;
}

abbrev quoted : Text → Text
quoted t = b'"' ∷ t ++ b'"' ∷ []

-- A bucket is what was put into it.
abbrev pub shown : Dict PutInput → Dict MemoryObject
shown [] = []
shown ((p, input) ∷ m) = (p, stored coarse false 0 input) ∷ shown m

abbrev stored_as : Option PutInput → Option MemoryObject
stored_as none = none
stored_as (some input) = some (stored coarse false 0 input)

lookup-shown : (m : Dict PutInput) (p : Text) → lookup p (shown m) ≡ stored_as (lookup p m)
unfolding lookup
lookup-shown [] p = refl
lookup-shown ((q, input) ∷ m) p =
    let h = lookup-shown m p in
    elim (Bool-cases (equal q p)) [ inl e ↦ rw e refl | inr e ↦ rw e (rw h refl) ]

pub insert-shown :
    (m : Dict PutInput) (p : Text) (input : PutInput)
    → shown (insert p input m) ≡ insert p (stored coarse false 0 input) (shown m)
unfolding insert
insert-shown [] p input = refl
insert-shown ((q, other) ∷ m) p input =
    let h = insert-shown m p input in
    elim (Bool-cases (equal q p)) [ inl e ↦ rw e refl | inr e ↦ rw e (rw h refl) ]

pub remove-shown : (m : Dict PutInput) (p : Text) → shown (remove p m) ≡ remove p (shown m)
unfolding remove
remove-shown [] p = refl
remove-shown ((q, other) ∷ m) p =
    let h = remove-shown m p in
    elim (Bool-cases (equal q p)) [ inl e ↦ rw e h | inr e ↦ rw e (rw h refl) ]

etag_lem :
    (input : PutInput)
    → (trim_etag (quoted (stored coarse false 0 input).info.etag)
        ≡ (stored coarse false 0 input).info.etag)
      × (trim_etag (stored coarse false 0 input).info.etag
          ≡ (stored coarse false 0 input).info.etag)
      × (equal (stored coarse false 0 input).info.etag (codes "*") ≡ false)
unfolding trim_etag encode_to_string equal
etag_lem input = elim (Bool-cases (equal input.body [])) [
  | inl e ↦ rw e (refl, refl, refl)
  | inr e ↦ rw e (refl, refl, refl)
]

abbrev fetched : Option PutInput → Dict PutInput → Result (Result Text) × Dict PutInput
fetched none m = (err (backend (codes "NoSuchKey")), m)
fetched (some input) m = (ok (ok input.body), m)

abbrev described : Option MemoryObject → Dict PutInput → Result HeadOutput × Dict PutInput
described none m = (err (backend (codes "NotFound")), m)
described (some o) m = (ok (head_output quoted o.info), m)

abbrev condition_failed : Dict PutInput → Result (Unit {0}) × Dict PutInput
condition_failed m = (err (backend (codes "PreconditionFailed")), m)

abbrev written : Option PutInput → PutInput → Dict PutInput → Result (Unit {0}) × Dict PutInput
written none input m = (ok tt, insert input.key input m)
written (some there) input m =
    if input.if_none_match then condition_failed m else (ok tt, insert input.key input m)

abbrev deleted :
    Option MemoryObject → Option Text → Text → Dict PutInput → Result (Unit {0}) × Dict PutInput
deleted there none p m = (ok tt, remove p m)
deleted none (some etag) p m = (err (backend (codes "NoSuchKey")), m)
deleted (some o) (some etag) p m =
    if equal o.info.etag etag then (ok tt, remove p m) else condition_failed m

-- Copies and listings play no part.
abbrev pub small_client : Client (Dict PutInput)
small_client = record {
  get_object = λ p m. fetched (lookup p m) m;
  head_object = λ p m. described (lookup p (shown m)) m;
  put_object = λ input m. written (lookup input.key m) input m;
  delete_object = λ p etag m. deleted (lookup p (shown m)) etag p m;
  copy_object = λ input m. (err (failed bad_config), m);
  list_objects = λ prefix token m. (err (failed bad_config), m);
}

stored_as-eq-some :
    (x : Option PutInput) (o : MemoryObject)
    → stored_as x ≡ some o
    → (input : PutInput) × (x ≡ some input) × (stored coarse false 0 input ≡ o)
stored_as-eq-some none o h = cc
stored_as-eq-some (some input) o h = (input, refl, cc)

stored_as-eq-none : (x : Option PutInput) → stored_as x ≡ none → x ≡ none
stored_as-eq-none none h = refl
stored_as-eq-none (some input) h = cc

pub there_lem :
    (m : Dict PutInput) (p : Text) (o : MemoryObject)
    → lookup p (shown m) ≡ some o
    → (input : PutInput) × (lookup p m ≡ some input) × (stored coarse false 0 input ≡ o)
there_lem m p o h = stored_as-eq-some (lookup p m) o (sym (lookup-shown m p) ∙ h)

pub gone_lem : (m : Dict PutInput) (p : Text) → lookup p (shown m) ≡ none → lookup p m ≡ none
gone_lem m p h = stored_as-eq-none (lookup p m) (sym (lookup-shown m p) ∙ h)

pub written_any :
    (x : Option PutInput) (input : PutInput) (m : Dict PutInput)
    → input.if_none_match ≡ false
    → written x input m ≡ (ok tt, insert input.key input m)
written_any none input m h = refl
written_any (some there) input m h = rw h refl

pub plain_lem :
    (m : Dict PutInput) (p : Text) (o : MemoryObject)
    → lookup p (shown m) ≡ some o
    → (trim_etag (quoted o.info.etag) ≡ o.info.etag)
      × (trim_etag o.info.etag ≡ o.info.etag)
      × (o.info.acl ≡ [])
      × (equal o.info.etag (codes "*") ≡ false)
plain_lem m p o h =
    let (input, there, same) = there_lem m p o h in
    rw (sym same) (let (e, f, g) = etag_lem input in (e, f, refl, g))

abbrev pub AnyKey : Text → Type 0
AnyKey p = Unit

abbrev pub small_bucket : Bucket (Dict PutInput) coarse small_client
small_bucket = record {
  objects = shown;
  now = λ m. 0;
  quoted = quoted;
  IsKey = AnyKey;
  encrypts = false;
  putting = λ input m. insert input.key input m;
  deleting = λ p m. remove p m;
  key_is = λ m p o h. tt;
  plain = plain_lem;
  get_present =
      λ m p o h. let (input, there, same) = there_lem m p o h in rw there (rw (sym same) refl);
  get_absent = λ m p k h. rw (gone_lem m p h) refl;
  head_present = λ m p o h. rw h refl;
  head_absent = λ m p k h. rw h refl;
  put_done = λ m input storable h. written_any (lookup input.key m) input m h;
  put_new = λ m input storable h. rw (gone_lem m input.key h) refl;
  put_refused = λ m input o only h.
      let (other, there, same) = there_lem m input.key o h in rw there (rw only refl);
  objects-put = λ m input storable. insert-shown m input.key input;
  delete_done = λ m p k. refl;
  delete_matched = λ m p etag o h e. rw h (rw e refl);
  delete_refused = λ m p etag o h e star. rw h (rw e refl);
  objects-delete = λ m p. remove-shown m p;
}
