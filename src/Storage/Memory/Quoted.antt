-- ===== src/Storage/Memory/Quoted.antt =====
-- internal/storage/memory.go: `DeleteIfMatch` with the ETag of some content, bare or in quotes.
use deb_s.Prelude.{
  ℕ, ◌/◌, ◌%◌, ◌==◌, ◌≡◌, refl, ap, ◌∙◌, arith, false, none, [], ◌∷◌, ◌++◌, if◌then◌else◌, Text,
  equal, is_space, lookup, remove, ok, err, conflict, some, All-append, HasNone, trim, trim-none,
  trim-around, ◌>>=◌,
}
use deb_s.Digest.{Codec, encode_to_string, hex_digit}
use deb_s.Storage.Key.{join_key}
use deb_s.Storage.Memory.{MemoryStore, MemoryObject, delete, delete_if_match, physical_key}
use deb_s.Storage.Memory.Etag.{trim_etag}
use deb_s.Storage.Memory.Writes.{delete_if_match_lem}
use deb_s.Storage.Memory.Sound.{IsSound}

hex_digit-space : (n : ℕ) → is_space (hex_digit n) ≡ false
hex_digit-space n = ground arith

hex_digit-quote : (n : ℕ) → (hex_digit n == b'"') ≡ false
hex_digit-quote n = ground arith

encode_to_string-space : (bs : Text) → HasNone is_space (encode_to_string bs)
unfolding encode_to_string
encode_to_string-space [] = tt
encode_to_string-space (b ∷ bs) =
    (hex_digit-space (b / 16 % 16), (hex_digit-space (b % 16), encode_to_string-space bs))

encode_to_string-quote : (bs : Text) → HasNone (λ c. c == b'"') (encode_to_string bs)
unfolding encode_to_string
encode_to_string-quote [] = tt
encode_to_string-quote (b ∷ bs) =
    (hex_digit-quote (b / 16 % 16), (hex_digit-quote (b % 16), encode_to_string-quote bs))

abbrev pub in_quotes : Text → Text
in_quotes t = b'"' ∷ (t ++ b'"' ∷ [])

trim_etag-bare : (bs : Text) → trim_etag (encode_to_string bs) ≡ encode_to_string bs
unfolding trim_etag
trim_etag-bare bs =
    rw (trim-none is_space (encode_to_string bs) (encode_to_string-space bs))
      (trim-none (λ c. c == b'"') (encode_to_string bs) (encode_to_string-quote bs))

trim_etag-quoted : (bs : Text) → trim_etag (in_quotes (encode_to_string bs)) ≡ encode_to_string bs
unfolding trim_etag
trim_etag-quoted bs =
    ap (trim (λ c. c == b'"')) (
      trim-none is_space (in_quotes (encode_to_string bs)) (
        refl,
        All-append (λ c. is_space c ≡ false) (encode_to_string bs) (b'"' ∷ [])
            (encode_to_string-space bs) (refl, tt),
      ))
    ∙ trim-around (λ c. c == b'"') b'"' (encode_to_string bs) refl (encode_to_string-quote bs)

module _ (c : Codec) (s : MemoryStore) (key p : Text) (valid : join_key s.prefix key ≡ ok p)
    (o : MemoryObject) (there : lookup p s.objects ≡ some o) (sound : IsSound c p o) where
  abbrev pub digest_of : Text → Text
  digest_of content = encode_to_string (c.md5_sum content)

  delete_lem : delete none key s ≡ (ok tt, record s { objects = remove p s.objects })
  unfolding delete physical_key ◌>>=◌
  delete_lem = rw valid refl

  matched :
      (content etag : Text)
      → trim_etag etag ≡ digest_of content
      → delete_if_match none key etag s ≡ (
          if equal (digest_of o.content) (digest_of content)
          then (ok tt, record s { objects = remove p s.objects })
          else (err (conflict key), s))
  matched content etag trimmed =
      delete_if_match_lem s key p valid etag o there
      ∙ rw (trimmed, sound.etag_is, trim_etag-bare, delete_lem) refl

  -- On an existing object under a valid key, whose ETag is the digest of its content,
  -- DeleteIfMatch with the hexadecimal digest of some content as the ETag, bare or in double
  -- quotes, deletes exactly this object when its content has that digest, and otherwise returns a
  -- conflict and changes nothing.
  pub delete_if_match-digest :
      (content : Text)
      → (delete_if_match none key (digest_of content) s ≡ (
          if equal (digest_of o.content) (digest_of content)
          then (ok tt, record s { objects = remove p s.objects })
          else (err (conflict key), s)))
        × (delete_if_match none key (in_quotes (digest_of content)) s ≡ (
            if equal (digest_of o.content) (digest_of content)
            then (ok tt, record s { objects = remove p s.objects })
            else (err (conflict key), s)))
  delete_if_match-digest content = (
    matched content (digest_of content) (trim_etag-bare (c.md5_sum content)),
    matched content (in_quotes (digest_of content)) (trim_etag-quoted (c.md5_sum content)),
  )
