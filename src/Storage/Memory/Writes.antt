-- ===== src/Storage/Memory/Writes.antt =====
-- What a reader sees of `MemoryStore` after a write.
use deb_s.Prelude.{
  ℕ, ◌≡◌, ◌∙◌, refl, Bool, true, ◌||◌, none, some, ap, arith, if◌then◌else◌, Text, equal, equal_iff,
  lookup, lookup-insert, lookup-remove, ok, err, conflict, not_found, ◌>>=◌, Option-cases,
  Bool-cases, inl, inr,
}
use deb_s.Digest.{Codec, encode_to_string}
use deb_s.Storage.Key.{join_key}
use deb_s.Storage.Types.{PutOptions}
use deb_s.Storage.Memory.{
  MemoryStore, MemoryObject, physical_key, get, put, delete, delete_if_match, new_object,
  write_object,
}
use deb_s.Storage.Memory.Etag.{object_md5, trim_etag}

-- No stored object with the digest of `content` has other bytes.
abbrev pub Distinguishes : Codec → MemoryStore → Text → Type 0
Distinguishes c s content =
    (p : Text) (o : MemoryObject)
    → lookup p s.objects ≡ some o
    → object_md5 o.info ≡ encode_to_string (c.md5_sum content)
    → o.content ≡ content

module _ (s : MemoryStore) (digest : Text) (exclusive : Bool) (key p : Text)
    (fresh : MemoryObject) where
  prefix-write : (write_object digest exclusive key p fresh s).1.prefix ≡ s.prefix
  prefix-write = ground arith

  object_after_write :
      (write_object digest exclusive key p fresh s).0 ≡ ok tt
      → ((o : MemoryObject)
          → lookup p s.objects ≡ some o
          → object_md5 o.info ≡ digest
          → o.content ≡ fresh.content)
      → (o : MemoryObject) × (lookup p (write_object digest exclusive key p fresh s).1.objects
          ≡ some o)
        × (o.content ≡ fresh.content)
  object_after_write done distinct =
      let written = lookup-insert p p fresh s.objects in
      elim (Option-cases (lookup p s.objects)) [
        | inl e ↦ (fresh, ground (arith, written, equal_iff p p), refl)
        | inr (o, e) ↦ elim (Bool-cases (equal (object_md5 o.info) digest)) [
          | inl same ↦ (o, ground arith, distinct o e ((equal_iff _ _).0 same))
          | inr other ↦ (fresh, ground (arith, written, equal_iff p p), refl)
        ]
      ]

module _ (s : MemoryStore) (key p : Text) (valid : join_key s.prefix key ≡ ok p) where
  pub put_lem :
      (c : Codec) (now : ℕ) (content : Text) (options : PutOptions)
      → put c none now key (ok content) options s
        ≡ write_object
            (encode_to_string (c.md5_sum content))
            (options.fail_if_exists || options.create_only)
            key
            p
            (new_object c now p content options)
            s
  unfolding put physical_key ◌>>=◌
  put_lem c now content options = rw valid

  pub get_lem :
      (t : MemoryStore)
      → t.prefix ≡ s.prefix
      → (get none key t).0
        ≡ elim (lookup p t.objects) [ none ↦ err (not_found key) | some o ↦ ok o.content ]
  unfolding get physical_key ◌>>=◌
  get_lem t h = rw (h, valid) (ground arith)

  -- After a successful Put under a valid key, Get of the key returns the bytes that were put,
  -- provided that no stored object has other bytes with the same digest.
  pub get-put :
      (c : Codec) (now : ℕ) (content : Text) (options : PutOptions)
      → Distinguishes c s content
      → (put c none now key (ok content) options s).0 ≡ ok tt
      → (get none key (put c none now key (ok content) options s).1).0 ≡ ok content
  unfolding new_object
  get-put c now content options distinct = rw put_lem (λ done.
      let fresh = new_object c now p content options in
      let digest = encode_to_string (c.md5_sum content) in
      let exclusive = options.fail_if_exists || options.create_only in
      let (o, there, same) = object_after_write s digest exclusive key p fresh done (distinct p) in
      get_lem (write_object digest exclusive key p fresh s).1
        (prefix-write s digest exclusive key p fresh)
      ∙ rw there (ap ok same))

  -- A Put with FailIfExists or CreateOnly under a valid key leaves every object that was in the
  -- store unchanged.
  pub put_exclusive :
      (c : Codec) (now : ℕ) (content : Text) (options : PutOptions) (q : Text) (o : MemoryObject)
      → (options.fail_if_exists || options.create_only) ≡ true
      → lookup q s.objects ≡ some o
      → lookup q (put c none now key (ok content) options s).1.objects ≡ some o
  put_exclusive c now content options q o e h = rw put_lem (
      ground
        (arith, lookup-insert p q (new_object c now p content options) s.objects, equal_iff p q))

  -- Delete under a valid key removes the object stored there and leaves every other object as it
  -- was.
  pub lookup-delete :
      (q : Text)
      → lookup q (delete none key s).1.objects ≡ (if equal p q then none else lookup q s.objects)
  unfolding delete physical_key ◌>>=◌
  lookup-delete q = rw valid (lookup-remove p q s.objects)

  -- On an existing object under a valid key, DeleteIfMatch deletes it when the ETags agree up to
  -- quotes and space, and otherwise returns a conflict and changes nothing.
  pub delete_if_match_lem :
      (etag : Text) (o : MemoryObject)
      → lookup p s.objects ≡ some o
      → delete_if_match none key etag s ≡ (
          if equal (trim_etag o.info.etag) (trim_etag etag)
          then delete none key s
          else (err (conflict key), s))
  unfolding delete_if_match delete physical_key ◌>>=◌
  delete_if_match_lem etag o there = rw (valid, there) (ground arith)
