-- ===== src/Storage/Memory/Hex.antt =====
-- internal/storage/memory.go: digests in hexadecimal, through `objectMD5`.
use deb_s.Prelude.{
  ℕ, ◌+◌, ◌<◌, ◌/◌, ◌%◌, ◌≡◌, ◌≢◌, refl, some, [], ◌∷◌, arith, Text, leb, ◌&&◌, if◌then◌else◌,
  to_lower, lookup-insert, equal_refl,
}
use deb_s.Digest.{Codec, encode_to_string, hex_digit}
use deb_s.Storage.Types.{PutOptions}
use deb_s.Storage.Memory.{new_object}
use deb_s.Storage.Memory.Etag.{object_md5, digest_or}

-- crypto/md5 never returns an empty sum.
abbrev pub IsMd5 : Codec → Type 0
IsMd5 c = (content : Text) → c.md5_sum content ≢ []

lower_hex_digit :
    (n : ℕ)
    → n < 16
    → (if leb b'A' (hex_digit n) && leb (hex_digit n) b'Z' then hex_digit n + 32 else hex_digit n)
      ≡ hex_digit n
lower_hex_digit n h = ground arith

pub to_lower-encode_to_string : (bs : Text) → to_lower (encode_to_string bs) ≡ encode_to_string bs
unfolding to_lower encode_to_string
to_lower-encode_to_string [] = refl
to_lower-encode_to_string (b ∷ bs) = cc (
  lower_hex_digit (b / 16 % 16) (omega arith),
  lower_hex_digit (b % 16) (omega arith),
  to_lower-encode_to_string bs,
)

digest_or-encode_to_string :
    (bs etag : Text) → bs ≢ [] → digest_or (some (encode_to_string bs)) etag ≡ encode_to_string bs
unfolding encode_to_string
digest_or-encode_to_string [] etag h = absurd (h refl)
digest_or-encode_to_string (b ∷ bs) etag h = refl

-- The object that `Put` stores has, for `objectMD5`, the digest of its content.
pub object_md5-new_object :
    (c : Codec) (now : ℕ) (physical content : Text) (options : PutOptions)
    → IsMd5 c
    → object_md5 (new_object c now physical content options).info
      ≡ encode_to_string (c.md5_sum content)
unfolding object_md5 new_object to_lower
object_md5-new_object c now physical content options h =
    rw (lookup-insert, equal_refl)
      (rw (digest_or-encode_to_string _ _ (h content)) (to_lower-encode_to_string _))
