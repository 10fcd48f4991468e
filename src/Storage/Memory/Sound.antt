-- ===== src/Storage/Memory/Sound.antt =====
-- internal/storage/memory.go: sound objects of `MemoryStore`, through its operations.
use deb_s.Prelude.{
  ℕ, ◌≡◌, refl, arith, Bool, none, some, Text, length, equal, equal_iff, lookup, lookup-insert,
  lookup-remove, ok, err, ◌>>=◌, Option-cases, Bool-cases, inl, inr, Result-cases,
}
use deb_s.Digest.{Codec, encode_to_string}
use deb_s.Storage.Types.{PutOptions}
use deb_s.Storage.Memory.{
  MemoryStore, MemoryObject, physical_key, new_object, cloned, write_object, delete_object, put,
  delete, delete_if_match, copy, new_memory_store, etag_differs,
}
use deb_s.Storage.Memory.Etag.{object_md5, trim_etag}
use deb_s.Storage.Memory.Hex.{IsMd5, object_md5-new_object}
use deb_s.Storage.Memory.Calls.{
  Call, put_call, delete_call, delete_if_match_call, copy_call, perform,
}

pub record IsSound (c : Codec) (p : Text) (o : MemoryObject) : Type 0 where
  pub key_is : o.info.key ≡ p
  pub size_is : o.info.size ≡ length o.content
  pub etag_is : o.info.etag ≡ encode_to_string (c.md5_sum o.content)
  pub digest_is : object_md5 o.info ≡ encode_to_string (c.md5_sum o.content)

abbrev pub AllSound : Codec → MemoryStore → Type 0
AllSound c s = (p : Text) (o : MemoryObject) → lookup p s.objects ≡ some o → IsSound c p o

module _ (c : Codec) (md5 : IsMd5 c) where
  pub new_object-IsSound :
      (now : ℕ) (p content : Text) (options : PutOptions)
      → IsSound c p (new_object c now p content options)
  unfolding new_object
  new_object-IsSound now p content options = record {
    key_is = refl;
    size_is = refl;
    etag_is = refl;
    digest_is = object_md5-new_object c now p content options md5;
  }

  cloned-IsSound :
      (now : ℕ) (p q : Text) (o : MemoryObject) → IsSound c p o → IsSound c q (cloned now q o)
  unfolding cloned object_md5
  cloned-IsSound now p q o h = record {
    key_is = refl;
    size_is = h.size_is;
    etag_is = h.etag_is;
    digest_is = h.digest_is;
  }

  write_object-AllSound :
      (s : MemoryStore) (digest : Text) (exclusive : Bool) (key p : Text) (fresh : MemoryObject)
      → IsSound c p fresh
      → AllSound c s
      → AllSound c (write_object digest exclusive key p fresh s).1
  write_object-AllSound s digest exclusive key p fresh f h q o =
      ground (arith, h q o, lookup-insert p q fresh s.objects, equal_iff p q)

  delete_object-AllSound :
      (s : MemoryStore) (p : Text) → AllSound c s → AllSound c (delete_object p s).1
  delete_object-AllSound s p h q o = ground (arith, h q o, lookup-remove p q s.objects)

  -- With a digest that is never empty, every Put, Delete, DeleteIfMatch or Copy of MemoryStore
  -- keeps each stored object's key, size, ETag and recorded digest in agreement with where it is
  -- stored and with its bytes.
  pub perform-AllSound :
      (call : Call) (s : MemoryStore) → AllSound c s → AllSound c (perform c call s).1
  unfolding perform put delete delete_if_match copy ◌>>=◌
  perform-AllSound (put_call ctx now key (err e) options) s h =
      elim (Result-cases (physical_key ctx s.prefix key)) [
        | inl (p, ep) ↦ rw ep h
        | inr (e', ep) ↦ rw ep h
      ]
  perform-AllSound (put_call ctx now key (ok content) options) s h =
      elim (Result-cases (physical_key ctx s.prefix key)) [
        | inl (p, ep) ↦
            rw ep (write_object-AllSound s _ _ key p _ (new_object-IsSound now p content options) h)
        | inr (e', ep) ↦ rw ep h
      ]
  perform-AllSound (delete_call ctx key) s h = elim (Result-cases (physical_key ctx s.prefix key)) [
    | inl (p, ep) ↦ rw ep (delete_object-AllSound s p h)
    | inr (e', ep) ↦ rw ep h
  ]
  perform-AllSound (delete_if_match_call ctx key etag) s h =
      elim (Result-cases (physical_key ctx s.prefix key)) [
        | inl (p, ep) ↦ rw ep (elim (Option-cases (lookup p s.objects)) [
          | inl gone ↦ rw gone h
          | inr (o, there) ↦
              rw there (elim (Bool-cases (equal (trim_etag o.info.etag) (trim_etag etag))) [
                | inl same ↦ rw same (delete_object-AllSound s p h)
                | inr other ↦ rw other h
              ])
        ])
        | inr (e', ep) ↦ rw ep h
      ]
  perform-AllSound (copy_call ctx now source destination options) s h =
      elim (Result-cases (physical_key ctx s.prefix source)) [
        | inl (p, ep) ↦ rw ep (elim (Result-cases (physical_key none s.prefix destination)) [
          | inl (q, eq) ↦ rw eq (elim (Option-cases (lookup p s.objects)) [
            | inl gone ↦ rw gone h
            | inr (o, there) ↦ rw there (elim (Bool-cases (etag_differs options.source_etag o)) [
              | inl other ↦ rw other h
              | inr same ↦ rw same (
                  write_object-AllSound s _ _ destination q _
                    (cloned-IsSound now p q o (h p o there)) h)
            ])
          ])
          | inr (e', eq) ↦ rw eq h
        ])
        | inr (e', ep) ↦ rw ep h
      ]

pub AllSound-new_memory_store : (c : Codec) (prefix : Text) → AllSound c (new_memory_store prefix)
unfolding new_memory_store lookup
AllSound-new_memory_store c prefix p o h = cc
