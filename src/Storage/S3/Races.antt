-- ===== src/Storage/S3/Races.antt =====
-- internal/storage/s3.go: `Put`, where another client writes between its `HeadObject` and its
-- `PutObject`.
use deb_s.Prelude.{
  ◌≡◌, refl, sym, ap, ◌∙◌, if◌then◌else◌, ok-injective, true, none, some, Text, equal, lookup,
  remove, ok, err, conflict, ◌>>=◌, Option-cases, Bool-cases, inl, inr,
}
use deb_s.Digest.{Codec, encode_to_string}
use deb_s.Storage.Key.{join_key}
use deb_s.Storage.Types.{ObjectInfo, PutOptions}
use deb_s.Storage.Memory.{MemoryObject}
use deb_s.Storage.Memory.Etag.{object_md5}
use deb_s.Storage.S3
use deb_s.Storage.S3.Inputs.{S3Store, put_input, settled, head_info}
use deb_s.Storage.S3.Api.{Client}
use deb_s.Storage.S3.Bucket.{Bucket, head_output}
use deb_s.Storage.S3.Simulates.{absent_head_lem, refused_lem, head_absent, head_present}

-- What others do after a `HeadObject`.
abbrev pub raced : {S : Type 0} → (S → S) → Client S → Client S
raced others client = record client {
  head_object = λ p s. let (r, s') = client.head_object p s in (r, others s');
}

module _ {S : Type 0} (c : Codec) (client : Client S) (b : Bucket S c client) (s3 : S3Store)
    (others : S → S) (s : S) (key p content : Text) (options : PutOptions)
    (valid : join_key s3.prefix key ≡ ok p) (only : options.create_only ≡ true)
    (theirs : MemoryObject) (there : lookup p (b.objects (others s)) ≡ some theirs) where
  is_conditional : (put_input s3 c p content options true).if_none_match ≡ true
  unfolding put_input
  is_conditional = rw only refl

  lost_race :
      lookup p (b.objects s) ≡ none
      → S3.put (raced others client) s3 c key (ok content) options s
        ≡ (err (conflict key), others s)
  unfolding S3.put S3.head settled put_input ◌>>=◌
  lost_race gone = rw valid (
      rw (b.head_absent s p (b.key_is (others s) p theirs there) gone) (
        rw absent_head_lem (
          rw
            (b.put_refused (others s) (put_input s3 c p content options true) theirs is_conditional
              there)
            (rw refused_lem refl))))

  found_first :
      (o : MemoryObject)
      → lookup p (b.objects s) ≡ some o
      → (S3.put (raced others client) s3 c key (ok content) options s).1 ≡ others s
  unfolding S3.put S3.head settled ◌>>=◌
  found_first o before = rw valid (
      rw (b.head_present s p o before) (
        rw only
          (elim (Bool-cases (
            equal (object_md5 (head_info key (head_output b.quoted o.info)))
              (encode_to_string (c.md5_sum content)))) [
                | inl same ↦ rw same refl
                | inr other ↦ rw other (elim (Bool-cases options.fail_if_exists) [
                  | inl e ↦ rw e refl
                  | inr e ↦ rw e refl
                ])
              ])))

  -- Over a documented bucket, when others have stored an object under the key between the
  -- HeadObject and the PutObject of a Put with CreateOnly, the Put leaves the bucket as they left
  -- it, and returns a conflict if there was no object before.
  pub put_raced :
      ((S3.put (raced others client) s3 c key (ok content) options s).1 ≡ others s)
      × (lookup p (b.objects s) ≡ none
          → (S3.put (raced others client) s3 c key (ok content) options s).0 ≡ err (conflict key))
  put_raced = elim (Option-cases (lookup p (b.objects s))) [
    | inl gone ↦ rw (lost_race gone) (refl, λ h. refl)
    | inr (o, before) ↦ (found_first o before, λ gone. cc)
  ]

module _ {S : Type 0} (c : Codec) (client : Client S) (b : Bucket S c client) (s3 : S3Store) (s : S)
    (key p : Text) (valid : join_key s3.prefix key ≡ ok p) (is_key : b.IsKey p) where
  -- The ETag that `Head` returns is that of the object that is there.
  etag-head :
      (info : ObjectInfo)
      → S3.head client s3 key s ≡ (ok info, s)
      → (o : MemoryObject) × (lookup p (b.objects s) ≡ some o) × (o.info.etag ≡ info.etag)
  etag-head info answered = elim (Option-cases (lookup p (b.objects s))) [
    | inl gone ↦
        let never = sym (head_absent c client b s3 s key p valid is_key gone) ∙ answered in cc
    | inr (o, there) ↦
        let same = sym (head_present c client b s3 s key p valid o there) ∙ answered in
        (o, there, ap (λ i. i.etag) (ok-injective (ap (λ x. x.0) same)))
  ]

  -- Over a documented bucket and for a valid key that S3 takes, when others change the bucket
  -- after a Head and leave an object under the key, DeleteIfMatch with the ETag that Head
  -- returned deletes this object if it still has that ETag, and otherwise returns a conflict and
  -- leaves the bucket as they left it.
  pub delete_if_match_raced :
      (others : S → S) (info : ObjectInfo) (later : MemoryObject)
      → S3.head client s3 key s ≡ (ok info, s)
      → lookup p (b.objects (others s)) ≡ some later
      → ((S3.delete_if_match client s3 key info.etag (others s)).0
          ≡ (if equal later.info.etag info.etag then ok tt else err (conflict key)))
        × (b.objects (S3.delete_if_match client s3 key info.etag (others s)).1 ≡ (
            if equal later.info.etag info.etag
            then remove p (b.objects (others s))
            else b.objects (others s)))
  unfolding S3.delete_if_match ◌>>=◌
  delete_if_match_raced others info later answered there =
      let (o, before, same) = etag-head info answered in
      let (quoted, bare, acl, star) = b.plain s p o before in
      rw (sym same) (
        rw (valid, bare)
          (elim (Bool-cases (equal later.info.etag o.info.etag)) [
            | inl e ↦ rw e (
                rw (b.delete_matched (others s) p o.info.etag later there e)
                  (refl, b.objects-delete (others s) p))
            | inr e ↦ rw e (
                rw (b.delete_refused (others s) p o.info.etag later there e star)
                  (rw refused_lem (refl, refl)))
          ]))
