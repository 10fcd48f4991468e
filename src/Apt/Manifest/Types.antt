-- ===== src/Apt/Manifest/Types.antt =====
-- internal/apt/manifest.go: `FileHashes`, `ManifestOptions` and `Manifest`.
use deb_s.Prelude.{ℕ, Bool, List, Text, Dict}
use deb_s.Apt.Package.{Package}

pub record FileHashes : Type 0 where
  pub size : ℕ
  pub md5 : Text
  pub sha1 : Text
  pub sha256 : Text

pub record ManifestOptions : Type 0 where
  pub codename : Text
  pub component : Text
  pub architecture : Text
  pub cache_control : Text
  pub by_hash : Bool
  pub fail_if_exists : Bool
  pub skip_package_upload : Bool

-- The options are the fields that `NewManifest` copies.
pub record Manifest : Type 0 where
  pub options : ManifestOptions
  pub packages : List Package
  pub pending_uploads : List Package
  pub files : Dict FileHashes
