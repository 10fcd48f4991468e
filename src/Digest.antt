-- ===== src/Digest.antt =====
-- What the program takes from crypto/md5, crypto/sha1, crypto/sha256 and compress/gzip, as the
-- functions that they compute, and encoding/hex.
use deb_s.Prelude.{ℕ, ◌+◌, ◌/◌, ◌%◌, [], ◌∷◌, ltb, if◌then◌else◌, Text}

pub record Codec : Type 0 where
  pub md5_sum : Text → Text
  pub sha1_sum : Text → Text
  pub sha256_sum : Text → Text
  pub gzip : Text → Text

abbrev pub hex_digit : ℕ → ℕ
hex_digit n = if ltb n 10 then b'0' + n else 87 + n

-- `hex.EncodeToString`
unfoldable pub encode_to_string : Text → Text
encode_to_string [] = []
encode_to_string (b ∷ bs) = hex_digit (b / 16 % 16) ∷ hex_digit (b % 16) ∷ encode_to_string bs
