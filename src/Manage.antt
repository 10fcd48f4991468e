-- ===== src/Manage.antt =====
-- internal/manage/manage.go: copying and deleting packages. Only indexes and the Release change. The
-- progress reports are left out.
use deb_s.Prelude.{
  ℕ, ◌+◌, Bool, true, false, not, ◌&&◌, ◌==◌, Option, none, some, List, [], ◌∷◌, ◌++◌, keep, length,
  if◌then◌else◌, Text, codes, equal, contains, Result, ok, err, no_packages_found,
  no_packages_deleted, wrap, and_then, Exec, pure, raise, lift, wrapping, ◌>>=◌,
}
use deb_s.Storage.Types.{Store}
use deb_s.Host.{Host}
use deb_s.Apt.Package.{Package, full_version}
use deb_s.Apt.Manifest.Types.{ManifestOptions, Manifest}
use deb_s.Apt.Manifest.{retrieve_manifest, add, delete_package}
use deb_s.Apt.Release.Types.{ReleaseSigner, ReleaseOptions, Release}
use deb_s.Apt.Release.{no_options, retrieve_release}
use deb_s.Apt.Publish.{publish_metadata}

pub record CopyOptions : Type 0 where
  pub source_codename : Text
  pub source_component : Text
  pub destination_codename : Text
  pub destination_component : Text
  pub architecture : Text
  pub package_name : Text
  pub versions : List Text
  pub versions_set : Bool
  pub preserve_versions : Bool
  pub fail_if_exists : Bool
  pub cache_control : Text
  pub by_hash : Option Bool
  pub signer : Option ReleaseSigner

pub record DeleteOptions : Type 0 where
  pub codename : Text
  pub component : Text
  pub architecture : Text
  pub package_name : Text
  pub versions : List Text
  pub versions_set : Bool
  pub origin : Option Text
  pub suite : Option Text
  pub cache_control : Text
  pub by_hash : Option Bool
  pub signer : Option ReleaseSigner

-- The packages that `Copy` takes from the source.
unfoldable pub is_selected : CopyOptions → Package → Bool
unfolding equal contains full_version
is_selected o p =
    equal p.name o.package_name
    && not (o.versions_set && not (contains o.versions (full_version p)))

unfoldable pub add_all : Manifest → List Package → Bool → Result Manifest
unfolding add
add_all m [] preserve_versions = ok m
add_all m (p ∷ ps) preserve_versions =
    and_then (wrap (add m p preserve_versions false)) λ m'. add_all m' ps preserve_versions

abbrev pub some_selected : List Package → Result (List Package)
some_selected [] = err no_packages_found
some_selected (p ∷ ps) = ok (p ∷ ps)

abbrev pub source_options : CopyOptions → ManifestOptions
source_options o = record {
  codename = o.source_codename;
  component = o.source_component;
  architecture = o.architecture;
  cache_control = [];
  by_hash = false;
  fail_if_exists = false;
  skip_package_upload = false;
}

abbrev pub destination_options : CopyOptions → Release → ManifestOptions
destination_options o release = record {
  codename = o.destination_codename;
  component = o.destination_component;
  architecture = o.architecture;
  cache_control = o.cache_control;
  by_hash = release.by_hash;
  fail_if_exists = o.fail_if_exists;
  skip_package_upload = true;
}

abbrev pub changed_options : DeleteOptions → Release → Text → ManifestOptions
changed_options o release architecture = record {
  codename = o.codename;
  component = o.component;
  architecture = architecture;
  cache_control = o.cache_control;
  by_hash = release.by_hash;
  fail_if_exists = false;
  skip_package_upload = true;
}

abbrev pub wanted_versions : DeleteOptions → Option (List Text)
wanted_versions o = if o.versions_set then some o.versions else none

-- A manifest that lost packages is among the changed ones.
abbrev pub note_changed : Manifest × List Package → ℕ × List Manifest → ℕ × List Manifest
note_changed (m, []) acc = acc
note_changed (m, p ∷ ps) (total, changed) = (total + length (p ∷ ps), changed ++ m ∷ [])

module _ {S : Type 0} (store : Store S) (host : Host) where
  -- `Copy`
  unfoldable pub copy : CopyOptions → Exec S (Unit {0})
  unfolding retrieve_manifest retrieve_release is_selected keep add_all publish_metadata ◌>>=◌
  copy o = do
    source ← wrapping (retrieve_manifest store host.maintainer (source_options o))
    release ← wrapping (
        retrieve_release store host.clock (record no_options {
          codename = o.destination_codename;
          cache_control = o.cache_control;
          by_hash = o.by_hash;
          signer = o.signer;
        }))
    destination ← wrapping (retrieve_manifest store host.maintainer (destination_options o release))
    selected ← lift (some_selected (keep (is_selected o) source.packages))
    destination' ← lift (add_all destination selected o.preserve_versions)
    wrapping (publish_metadata store host.codec host.files release (destination' ∷ []))

  unfoldable pub delete_from :
      DeleteOptions → Release → List Text → ℕ × List Manifest → Exec S (ℕ × List Manifest)
  unfolding retrieve_manifest delete_package ◌>>=◌
  delete_from o release [] acc = pure acc
  delete_from o release (architecture ∷ rest) acc = do
    m ← wrapping (retrieve_manifest store host.maintainer (changed_options o release architecture))
    delete_from o release rest
        (note_changed (delete_package m o.package_name (wanted_versions o)) acc)

  abbrev delete_options : DeleteOptions → ReleaseOptions
  delete_options o = record {
    codename = o.codename;
    origin = o.origin;
    suite = o.suite;
    cache_control = o.cache_control;
    by_hash = o.by_hash;
    signer = o.signer;
    now = none;
  }

  -- `Delete`
  unfoldable pub delete : DeleteOptions → Exec S (Unit {0})
  unfolding retrieve_release delete_from equal publish_metadata ◌>>=◌
  delete o = do
    release ← wrapping (retrieve_release store host.clock (delete_options o))
    (total, changed) ←
        delete_from o release
          (if equal o.architecture (codes "all")
            then release.architectures
            else o.architecture ∷ [])
          (0, [])
    if total == 0
        then raise no_packages_deleted
        else wrapping (publish_metadata store host.codec host.files release changed)
