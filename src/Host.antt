-- ===== src/Host.antt =====
-- What the commands take from the machine that they run on: the maintainer that `NewPackage` reads
-- from the environment, the reading of the clock, digests and gzip, and the local files.
use deb_s.Prelude.{Text}
use deb_s.Digest.{Codec}
use deb_s.Apt.Artifacts.{Files}

pub record Host : Type 0 where
  pub maintainer : Text
  pub clock : Text
  pub codec : Codec
  pub files : Files
