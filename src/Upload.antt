-- ===== src/Upload.antt =====
-- internal/upload/upload.go: packages are added to the manifests of their architectures, and all is
-- published. The progress reports are left out. The map of manifests and their order are one list,
-- in which a manifest goes by its architecture.
mod Trace
mod Tests
use deb_s.Prelude.{
  Bool, true, false, not, ◌&&◌, Option, List, [], ◌∷◌, ◌++◌, any, if◌then◌else◌, Text, codes, equal,
  Result, ok, err, failed, no_files, file_missing, bad_architecture, no_architecture, wrap,
  and_then, Exec, pure, lift, wrapping, ◌>>=◌, ◌>>◌,
}
use deb_s.Storage.Types.{Store}
use deb_s.Host.{Host}
use deb_s.Apt.Package.{Package}
use deb_s.Apt.Manifest.Types.{ManifestOptions, Manifest}
use deb_s.Apt.Manifest.{retrieve_manifest, add}
use deb_s.Apt.Artifacts.{publish_packages}
use deb_s.Apt.Release.Types.{ReleaseSigner, ReleaseOptions, Release}
use deb_s.Apt.Release.{retrieve_release}
use deb_s.Apt.Publish.{Prepared, prepare_all, all_by_hash, all_canonical, publish_release}

pub record UploadOptions : Type 0 where
  pub codename : Text
  pub component : Text
  pub origin : Option Text
  pub suite : Option Text
  pub architecture : Text
  pub architecture_set : Bool
  pub preserve_versions : Bool
  pub fail_if_exists : Bool
  pub skip_package_upload : Bool
  pub cache_control : Text
  pub by_hash : Option Bool
  pub signer : Option ReleaseSigner
  pub now : Option Text

abbrev pub default_architectures : List Text
default_architectures = codes "amd64" ∷ codes "i386" ∷ codes "armhf" ∷ codes "arm64" ∷ []

abbrev pub some_matches : List Text → Result (List Text)
some_matches [] = err (failed file_missing)
some_matches (f ∷ fs) = ok (f ∷ fs)

unfoldable pub expand_each : (Text → Result (List Text)) → List Text → Result (List Text)
expand_each glob [] = ok []
expand_each glob (p ∷ ps) = and_then (wrap (glob p)) λ found.
    and_then (some_matches found) λ files. and_then (expand_each glob ps) λ rest. ok (files ++ rest)

-- `ExpandFiles`, over `filepath.Glob`.
unfoldable pub expand_files : (Text → Result (List Text)) → List Text → Result (List Text)
unfolding expand_each
expand_files glob [] = err (failed no_files)
expand_files glob (p ∷ ps) = expand_each glob (p ∷ ps)

abbrev pub some_architecture : Text → Result Text
some_architecture [] = err (failed no_architecture)
some_architecture (c ∷ cs) = ok (c ∷ cs)

-- The architecture under which a package is published.
unfoldable pub placement : UploadOptions → Package → Result Text
unfolding equal
placement o pack =
    if o.architecture_set
    then (if not (equal pack.architecture [])
          && (not (equal pack.architecture (codes "all"))
              && not (equal pack.architecture o.architecture))
        then err (failed bad_architecture)
        else some_architecture o.architecture)
    else some_architecture pack.architecture

abbrev pub is_for : Text → Manifest → Bool
is_for architecture m = equal m.options.architecture architecture

-- `Add` to the manifest of one architecture.
unfoldable pub add_in : UploadOptions → Text → Package → List Manifest → Result (List Manifest)
unfolding equal add
add_in o architecture pack [] = ok []
add_in o architecture pack (m ∷ ms) =
    let rest = add_in o architecture pack ms in
    if is_for architecture m
    then and_then (wrap (add m pack o.preserve_versions true)) (λ m'. ok (m' ∷ ms))
    else and_then rest (λ ms'. ok (m ∷ ms'))

unfoldable pub add_each : UploadOptions → Manifest → List Package → Result Manifest
unfolding add
add_each o m [] = ok m
add_each o m (p ∷ ps) = and_then (wrap (add m p o.preserve_versions false)) λ m'. add_each o m' ps

-- The packages of architecture all go into every other manifest too.
unfoldable pub propagate : UploadOptions → List Package → List Manifest → Result (List Manifest)
unfolding equal add_each
propagate o packs [] = ok []
propagate o packs (m ∷ ms) =
    and_then (if is_for (codes "all") m then ok m else add_each o m packs)
      λ m'. and_then (propagate o packs ms) λ ms'. ok (m' ∷ ms')

abbrev pub upload_manifest_options : UploadOptions → Release → Text → ManifestOptions
upload_manifest_options o release architecture = record {
  codename = o.codename;
  component = o.component;
  architecture = architecture;
  cache_control = o.cache_control;
  by_hash = release.by_hash;
  fail_if_exists = o.fail_if_exists;
  skip_package_upload = o.skip_package_upload;
}

abbrev pub upload_release_options : UploadOptions → ReleaseOptions
upload_release_options o = record {
  codename = o.codename;
  origin = o.origin;
  suite = o.suite;
  cache_control = o.cache_control;
  by_hash = o.by_hash;
  signer = o.signer;
  now = o.now;
}

abbrev pub all_of : Text → Package → List Package → List Package
all_of architecture pack packs =
    if equal architecture (codes "all") then packs ++ pack ∷ [] else packs

-- The architectures for which manifests are wanted before a package of architecture all.
abbrev pub defaults_for : Text → List Manifest → List Text
defaults_for architecture [] =
    if equal architecture (codes "all") then default_architectures else []
defaults_for architecture (m ∷ ms) = []

module _ {S : Type 0} (store : Store S) (host : Host) (o : UploadOptions) where
  -- `manifestFor`
  unfoldable pub manifest_for : Release → Text → List Manifest → Exec S (List Manifest)
  unfolding equal any retrieve_manifest ◌>>=◌
  manifest_for release architecture ms = if any (is_for architecture) ms then pure ms else (do
    m ←
        wrapping
          (retrieve_manifest store host.maintainer (upload_manifest_options o release architecture))
    pure (ms ++ m ∷ []))

  unfoldable pub manifests_for : Release → List Text → List Manifest → Exec S (List Manifest)
  unfolding manifest_for ◌>>=◌
  manifests_for release [] ms = pure ms
  manifests_for release (a ∷ rest) ms = do
    ms' ← manifest_for release a ms
    manifests_for release rest ms'

  module _ (inspect : Text → Result Package) (release : Release) where
    -- One round of the loop over the files: the manifests, and the packages of architecture all.
    unfoldable pub examine :
        Text → List Manifest × List Package → Exec S (List Manifest × List Package)
    unfolding placement manifests_for add_in equal ◌>>=◌
    examine filename (ms, packs) = do
      pack ← lift (wrap (inspect filename))
      architecture ← lift (placement o pack)
      with_defaults ← manifests_for release (defaults_for architecture ms) ms
      with_own ← manifest_for release architecture with_defaults
      added ← lift (add_in o architecture pack with_own)
      pure (added, all_of architecture pack packs)

    unfoldable pub examine_all :
        List Text → List Manifest × List Package → Exec S (List Manifest × List Package)
    unfolding examine ◌>>=◌
    examine_all [] acc = pure acc
    examine_all (f ∷ fs) acc = do acc' ← examine f acc; examine_all fs acc'

  unfoldable pub all_packages : Prepared → Exec S (Unit {0})
  unfolding publish_packages ◌>>=◌
  all_packages [] = pure tt
  all_packages ((m, a) ∷ rest) = do
    wrapping (publish_packages store host.files m)
    all_packages rest

  -- Bodies first, then the immutable indexes, then the canonical ones, then the Release.
  unfoldable pub publish_all : Release → Prepared → Exec S (Unit {0})
  unfolding all_packages all_by_hash all_canonical publish_release ◌>>=◌
  publish_all release prepared = do
    all_packages prepared
    wrapping (all_by_hash store prepared)
    wrapping (all_canonical store prepared)
    wrapping (publish_release store host.codec host.files release)

  -- `Upload`
  unfoldable pub upload :
      (Text → Result (List Text)) → (Text → Result Package) → List Text → Exec S (Unit {0})
  unfolding expand_files retrieve_release manifests_for examine_all propagate prepare_all
      publish_all ◌>>=◌
  upload glob inspect patterns = do
    files ← lift (expand_files glob patterns)
    release ← wrapping (retrieve_release store host.clock (upload_release_options o))
    ms ← manifests_for release release.architectures []
    (added, packs) ← examine_all inspect release files (ms, [])
    manifests ← lift (propagate o packs added)
    (release', prepared) ← lift (wrap (prepare_all host.codec release manifests))
    publish_all release' prepared
