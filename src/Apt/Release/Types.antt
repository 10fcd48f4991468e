-- ===== src/Apt/Release/Types.antt =====
-- internal/apt/release.go: `Release`, its options and its signer.
use deb_s.Prelude.{Bool, Option, List, Text, Dict, Result}
use deb_s.Apt.Manifest.Types.{FileHashes}

pub record SignatureArtifacts : Type 0 where
  pub in_release : Text
  pub release_gpg : Text

-- `ReleaseSigner`: what signing makes of the text. It does not touch the store.
abbrev pub ReleaseSigner : Type 0
ReleaseSigner = Text → Result SignatureArtifacts

pub record ReleaseOptions : Type 0 where
  pub codename : Text
  pub origin : Option Text
  pub suite : Option Text
  pub cache_control : Text
  pub by_hash : Option Bool
  pub signer : Option ReleaseSigner
  pub now : Option Text

pub record Release : Type 0 where
  pub codename : Text
  pub origin : Option Text
  pub suite : Option Text
  pub architectures : List Text
  pub components : List Text
  pub cache_control : Text
  pub by_hash : Bool
  pub signer : Option ReleaseSigner
  pub files : Dict FileHashes
  pub now : Option Text
