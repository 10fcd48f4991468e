-- ===== src/Samples.antt =====
-- What the tests of the parts share: digests that put one byte before the text, and a host on which
-- every file holds its own name.
use deb_s.Prelude.{◌∷◌, codes, ok}
use deb_s.Digest.{Codec}
use deb_s.Host.{Host}

abbrev pub codec : Codec
codec = record {
  md5_sum = λ content. 1 ∷ content;
  sha1_sum = λ content. 2 ∷ content;
  sha256_sum = λ content. 3 ∷ content;
  gzip = λ content. 4 ∷ content;
}

abbrev pub host : Host
host = record {
  maintainer = codes "<me@host>";
  clock = codes "now";
  codec = codec;
  files = λ name. ok (ok name);
}
