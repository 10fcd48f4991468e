-- ===== src/Maintenance/Verify.antt =====
-- internal/maintenance/maintenance.go: `Verify` finds the packages whose bodies are gone, and takes
-- them out of the indexes where it is asked to.
pub mod Quiet
use deb_s.Prelude.{
  ℕ, ◌+◌, Bool, true, false, ◌&&◌, ltb, Option, none, List, [], ◌∷◌, ◌++◌, if◌then◌else◌, Text,
  Result, ok, err, wrapped, wrap, is_not_found, Exec,
}
use deb_s.Storage.Types.{ObjectInfo, Store}
use deb_s.Host.{Host}
use deb_s.Apt.Package.{Package, repository_filename}
use deb_s.Apt.Manifest.Types.{ManifestOptions, Manifest}
use deb_s.Apt.Manifest.{retrieve_manifest}
use deb_s.Apt.Release.Types.{ReleaseSigner, ReleaseOptions, Release}
use deb_s.Apt.Release.{retrieve_release}
use deb_s.Apt.Publish.{is_some, publish_metadata, publish_release}
use deb_s.Maintenance.Partial.{Partial, done, go_on}

pub record VerifyOptions : Type 0 where
  pub codename : Text
  pub component : Text
  pub fix_manifests : Bool
  pub origin : Option Text
  pub suite : Option Text
  pub cache_control : Text
  pub by_hash : Option Bool
  pub signer : Option ReleaseSigner

-- `VerifyResult`, the manifests to publish, and for the current manifest the packages that stay and
-- the number of missing ones.
pub record Progress : Type 0 where
  pub checked : ℕ
  pub missing : ℕ
  pub repaired : ℕ
  pub changed : List Manifest
  pub retained : List Package
  pub missing_for_manifest : ℕ

abbrev pub begin : Progress
begin = record {
  checked = 0;
  missing = 0;
  repaired = 0;
  changed = [];
  retained = [];
  missing_for_manifest = 0;
}

abbrev pub retain : Package → Progress → Progress
retain p v = record v { retained = v.retained ++ p ∷ [] }

abbrev pub count_missing : Progress → Progress
count_missing v = record v {
  missing = v.missing + 1;
  missing_for_manifest = v.missing_for_manifest + 1;
}

-- What `Head` says of the body of a package.
unfoldable pub looked_up :
    VerifyOptions → Package → Progress → Result ObjectInfo → Progress × Result (Unit {0})
looked_up o p v (ok _) = (retain p v, ok tt)
looked_up o p v (err e) =
    if is_not_found e
    then ((if o.fix_manifests then count_missing v else retain p (count_missing v)), ok tt)
    else (v, err (wrapped e))

-- After the packages of one manifest.
unfoldable pub finish_manifest : VerifyOptions → Manifest → Progress → Progress
finish_manifest o m v =
    if o.fix_manifests && ltb 0 v.missing_for_manifest
    then record v {
      repaired = v.repaired + v.missing_for_manifest;
      changed = v.changed ++ record m { packages = v.retained } ∷ [];
    }
    else v

abbrev pub verify_manifest_options : VerifyOptions → Release → Text → ManifestOptions
verify_manifest_options o release architecture = record {
  codename = o.codename;
  component = o.component;
  architecture = architecture;
  cache_control = o.cache_control;
  by_hash = release.by_hash;
  fail_if_exists = false;
  skip_package_upload = true;
}

abbrev pub verify_release_options : VerifyOptions → ReleaseOptions
verify_release_options o = record {
  codename = o.codename;
  origin = o.origin;
  suite = o.suite;
  cache_control = o.cache_control;
  by_hash = o.by_hash;
  signer = o.signer;
  now = none;
}

module _ {S : Type 0} (store : Store S) (host : Host) (o : VerifyOptions) where
  abbrev check_body : Package → Progress → Result Text → Partial S Progress
  check_body p v (err e) s = ((v, err (wrapped e)), s)
  check_body p v (ok filename) s = let (r, s') = store.head filename s in (looked_up o p v r, s')

  -- One round of the loop over a manifest's packages.
  unfoldable pub check_package : Package → Progress → Partial S Progress
  unfolding repository_filename looked_up
  check_package p v =
      check_body p (record v { checked = v.checked + 1 }) (repository_filename p o.codename)

  unfoldable pub check_packages : List Package → Progress → Partial S Progress
  unfolding check_package
  check_packages [] v = done v
  check_packages (p ∷ ps) v = go_on (check_package p v) (check_packages ps)

  abbrev check_manifest : Progress → Result Manifest → Partial S Progress
  check_manifest v (err e) s = ((v, err (wrapped e)), s)
  check_manifest v (ok m) s =
      go_on (check_packages m.packages (record v { retained = []; missing_for_manifest = 0 }))
        (λ v'. done (finish_manifest o m v')) s

  unfoldable pub check_architecture : Release → Text → Progress → Partial S Progress
  unfolding retrieve_manifest check_packages finish_manifest
  check_architecture release architecture v s =
      let (r, s') =
        retrieve_manifest store host.maintainer (verify_manifest_options o release architecture)
          s in
      check_manifest v r s'

  unfoldable pub check_architectures : Release → List Text → Progress → Partial S Progress
  unfolding check_architecture
  check_architectures release [] v = done v
  check_architectures release (a ∷ rest) v =
      go_on (check_architecture release a v) (check_architectures release rest)

  abbrev beside : Progress → Exec S (Unit {0}) → Partial S Progress
  beside v m s = let (r, s') = m s in ((v, wrap r), s')

  abbrev publish_changed : Release → Progress → List Manifest → Partial S Progress
  publish_changed release v (m ∷ ms) =
      beside v (publish_metadata store host.codec host.files release (m ∷ ms))
  publish_changed release v [] =
      if is_some o.signer
      then beside v (publish_release store host.codec host.files release)
      else done v

  abbrev verify_release : Result Release → Partial S Progress
  verify_release (err e) s = ((begin, err (wrapped e)), s)
  verify_release (ok release) s =
      go_on (check_architectures release release.architectures begin)
        (λ v. publish_changed release v v.changed) s

  -- `Verify`
  unfoldable pub verify : Partial S Progress
  unfolding retrieve_release check_architectures publish_metadata publish_release
  verify s =
      let (r, s') = retrieve_release store host.clock (verify_release_options o) s in
      verify_release r s'
