-- ===== src/Maintenance/Tests.antt =====
-- `Clean` on a repository with one index and two objects in the pool.
use deb_s.Prelude.{
  none, false, All, here, ◌≡◌, refl, false, none, List, [], ◌∷◌, Text, codes, ok, err, not_found,
  equal, if◌then◌else◌, trim_suffix, insert,
}
use deb_s.Samples.{host}
use deb_s.Storage.Types.{ObjectInfo, Store}
use deb_s.Maintenance.Clean.{scoped_prefix, survey, clean_pool}
use deb_s.Apt.Package.{Package}
use deb_s.Apt.Manifest.{parse_packages}
use deb_s.Maintenance.Clean.Kept.{IsSpared, clean_pool-IsSpared}
use deb_s.Maintenance.Verify.{VerifyOptions, verify}
use deb_s.Maintenance.Verify.Quiet.{IsQuiet, verify-IsQuiet}
use deb_s.Maintenance.Clean.Swept.{unreferenced, Deletes, clean_pool-Deletes}

abbrev info_of : Text → ObjectInfo
info_of key = record {
  key = key;
  size = 0;
  etag = [];
  metadata = [];
  content_type = [];
  cache_control = [];
  acl = [];
  server_side_encryption = false;
  last_modified = 0;
}

abbrev pool : List ObjectInfo
pool = info_of (codes "pool/s/p") ∷ info_of (codes "pool/s/q") ∷ []

abbrev index_key : Text
index_key = codes "dists/s/main/binary-a/Packages"

-- A store of one index, in which every deletion succeeds.
abbrev one_index : Store (Unit {0})
one_index = record {
  get = λ key s. (ok (codes "Package: t\nVersion: 1\nFilename: pool/s/p\n"), s);
  head = λ key s. (err (not_found key), s);
  put = λ key body options s. (ok tt, s);
  delete = λ key s. (ok tt, s);
  copy = λ source destination options s. (ok tt, s);
  list =
      λ prefix s. (ok (if equal prefix (codes "dists/") then info_of index_key ∷ [] else pool), s);
  delete_if_match = none;
}

pool_of_s : scoped_prefix (codes "pool") (codes "s") ≡ ok (codes "pool/s/")
unfolding scoped_prefix
pool_of_s = refl

surveyed :
    survey one_index host (codes "pool/s/") tt
    ≡ (ok (index_key ∷ [], codes "pool/s/p" ∷ [], pool), tt)
unfolding survey trim_suffix insert
surveyed = refl

clean_pool-Deletes_example :
    Deletes (unreferenced (codes "pool/s/p" ∷ []) pool) (clean_pool one_index host (codes "s") tt).0
clean_pool-Deletes_example =
    clean_pool-Deletes one_index host (codes "s") (codes "pool/s/") (index_key ∷ [])
      (codes "pool/s/p" ∷ []) pool tt tt pool_of_s surveyed

clean_pool-IsSpared_example :
    (text : Text) × (packages : List Package) × (one_index.get index_key tt ≡ (ok text, tt))
    × (parse_packages host.maintainer text ≡ ok packages)
    × All (IsSpared (clean_pool one_index host (codes "s") tt).0.0.deleted) packages
clean_pool-IsSpared_example =
    clean_pool-IsSpared one_index host (λ key s. refl) (λ prefix s. refl) (codes "s")
      (codes "pool/s/") (index_key ∷ []) (codes "pool/s/p" ∷ []) pool tt tt pool_of_s surveyed
      index_key (here refl)

abbrev report_only : VerifyOptions
report_only = record {
  codename = codes "s";
  component = codes "main";
  fix_manifests = false;
  origin = none;
  suite = none;
  cache_control = [];
  by_hash = none;
  signer = none;
}

verify-IsQuiet_example : IsQuiet tt (verify one_index host report_only tt)
verify-IsQuiet_example =
    verify-IsQuiet one_index host report_only (λ key s. refl) (λ key s. refl) refl refl tt
