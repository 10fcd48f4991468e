-- ===== src/Storage/S3/Writes.antt =====
-- internal/storage/s3.go: the operations of `S3Store` that write, against those of `MemoryStore`.
use deb_s.Prelude.{
  ◌≡◌, refl, ap, ◌∙◌, arith, Bool, true, false, ◌||◌, none, some, Text, equal, lookup, insert, ok,
  ◌>>=◌, Bool-cases, inl, inr,
}
use deb_s.Digest.{Codec, encode_to_string}
use deb_s.Storage.Key.{join_key}
use deb_s.Storage.Types.{PutOptions}
use deb_s.Storage.Memory
use deb_s.Storage.Memory.{MemoryStore, MemoryObject, physical_key, new_object, write_object}
use deb_s.Storage.Memory.Writes.{put_lem}
use deb_s.Storage.Memory.Etag.{object_md5}
use deb_s.Storage.S3
use deb_s.Storage.S3.Inputs.{S3Store, put_input, settled}
use deb_s.Storage.S3.Api.{Client}
use deb_s.Storage.S3.Bucket.{Bucket, IsStorable}
use deb_s.Storage.S3.Simulates.{
  as_memory, view, Agrees, head_present, head_absent, encrypted, stored-put_input,
}

module _ {S : Type 0} (c : Codec) (client : Client S) (b : Bucket S c client) (s3 : S3Store) (s : S)
    (key p : Text) (valid : join_key s3.prefix key ≡ ok p) where
  module _ (content : Text) (options : PutOptions)
      (storable : (absent : Bool)
        → IsStorable b.IsKey (put_input s3 c p content options absent)) where
    digest : Text
    digest = encode_to_string (c.md5_sum content)

    exclusive : Bool
    exclusive = options.fail_if_exists || options.create_only

    -- What the bucket holds after the request.
    view-put :
        (absent : Bool)
        → view c client b s3 (b.putting (put_input s3 c p content options absent) s)
          ≡ record (view c client b s3 s) {
            objects =
                insert p
                  (new_object c (b.now s) p content (encrypted b.encrypts s3 options))
                  (b.objects s);
          }
    unfolding put_input
    view-put absent = ap (as_memory s3.prefix) (
        b.objects-put s (put_input s3 c p content options absent) (storable absent)
        ∙ ap (λ o. insert p o (b.objects s))
            (stored-put_input c b.encrypts s3 (b.now s) p content options absent))

    pub put_absent-Agrees :
        b.IsKey p
        → lookup p (b.objects s) ≡ none
        → Agrees c client b s3 (S3.put client s3 c key (ok content) options s) (
            Memory.put c none
              (b.now s)
              key
              (ok content)
              (encrypted b.encrypts s3 options)
              (view c client b s3 s))
    unfolding S3.put settled put_input ◌>>=◌
    put_absent-Agrees is_key gone =
        rw
          (put_lem (view c client b s3 s) key p valid c (b.now s) content
            (encrypted b.encrypts s3 options))
          (rw gone (
            rw valid (
              rw (head_absent c client b s3 s key p valid is_key gone) (
                rw (b.put_new s (put_input s3 c p content options true) (storable true) gone)
                  (refl, view-put true)))))

    no_condition :
        exclusive ≡ false → (put_input s3 c p content options false).if_none_match ≡ false
    unfolding put_input exclusive
    no_condition h = ground arith

    pub put_present-Agrees :
        (o : MemoryObject)
        → lookup p (b.objects s) ≡ some o
        → Agrees c client b s3 (S3.put client s3 c key (ok content) options s) (
            Memory.put c none
              (b.now s)
              key
              (ok content)
              (encrypted b.encrypts s3 options)
              (view c client b s3 s))
    unfolding S3.put settled object_md5 digest exclusive ◌>>=◌
    put_present-Agrees o there =
        rw
          (put_lem (view c client b s3 s) key p valid c (b.now s) content
            (encrypted b.encrypts s3 options))
          (rw there (
            rw valid (
              rw (head_present c client b s3 s key p valid o there)
                (elim (Bool-cases (equal (object_md5 o.info) digest)) [
                  | inl same ↦ rw same (refl, refl)
                  | inr other ↦ rw other (elim (Bool-cases exclusive) [
                    | inl only ↦ rw only (refl, refl)
                    | inr any ↦ rw any (
                        rw
                          (b.put_done s (put_input s3 c p content options false) (storable false)
                            (no_condition any))
                          (refl, view-put false))
                  ])
                ]))))

  pub delete-Agrees :
      b.IsKey p
      → Agrees c client b s3
          (S3.delete client s3 key s)
          (Memory.delete none key (view c client b s3 s))
  unfolding S3.delete Memory.delete physical_key ◌>>=◌
  delete-Agrees k =
      rw valid (rw (b.delete_done s p k) (refl, ap (as_memory s3.prefix) (b.objects-delete s p)))
