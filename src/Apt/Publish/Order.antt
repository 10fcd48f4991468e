-- ===== src/Apt/Publish/Order.antt =====
-- The calls that publication makes on a store, in order.
use deb_s.Prelude.{
  true, false, not, Option, none, some, List, [], ◌∷◌, ◌++◌, if◌then◌else◌, Text, codes, equal,
  has_prefix, Result, ok, wrap,
}
use deb_s.Digest.{Codec}
use deb_s.Storage.Plan.{Op, put, delete, Plan, then_plan, to_option}
use deb_s.Apt.Package.{Package, repository_filename}
use deb_s.Apt.Manifest.Types.{Manifest}
use deb_s.Apt.Artifacts.{
  ManifestArtifact, ManifestArtifacts, Files, artifact_list, by_hash_path, index_options,
  body_options, record_artifacts, build_artifacts,
}
use deb_s.Apt.Release.Types.{ReleaseSigner, Release}
use deb_s.Apt.Release.{release_filename, render}
use deb_s.Apt.Publish.{
  Prepared, missing_manifests, update_manifests, signatures, text_options, signature_options,
  detached_filename, in_release_filename, prepare_all,
}

-- The immutable copies of index files.
abbrev pub by_hash_ops : Text → List ManifestArtifact → List Op
by_hash_ops cache_control [] = []
by_hash_ops cache_control (a ∷ rest) =
    put (by_hash_path a) (ok a.content) (index_options a cache_control true)
    ∷ by_hash_ops cache_control rest

-- The index files under their own names.
abbrev pub canonical_ops : Text → List ManifestArtifact → List Op
canonical_ops cache_control [] = []
canonical_ops cache_control (a ∷ rest) =
    put a.path (ok a.content) (index_options a cache_control false)
    ∷ canonical_ops cache_control rest

abbrev pub manifest_by_hash_ops : Manifest → ManifestArtifacts → List Op
manifest_by_hash_ops m a =
    if m.options.by_hash then by_hash_ops m.options.cache_control (artifact_list a) else []

abbrev pub manifest_canonical_ops : Manifest → ManifestArtifacts → List Op
manifest_canonical_ops m a = canonical_ops m.options.cache_control (artifact_list a)

abbrev pub all_by_hash_ops : Prepared → List Op
all_by_hash_ops [] = []
all_by_hash_ops ((m, a) ∷ rest) = manifest_by_hash_ops m a ++ all_by_hash_ops rest

abbrev pub all_canonical_ops : Prepared → List Op
all_canonical_ops [] = []
all_canonical_ops ((m, a) ∷ rest) = manifest_canonical_ops m a ++ all_canonical_ops rest

-- A body goes to its key under pool/, and to no other key.
abbrev pub checked_plan : Result (Result Text) → Manifest → Text → Plan (Unit {0})
checked_plan opened m key =
    if not (has_prefix key (codes "pool/"))
    then ([], none)
    else then_plan ([], to_option (wrap opened))
        (λ body. (put key body (body_options m) ∷ [], some tt))

abbrev pub package_plan : Files → Manifest → Package → Plan (Unit {0})
package_plan files m p =
    if equal p.filename []
    then ([], none)
    else then_plan ([], to_option (repository_filename p m.options.codename))
        (checked_plan (files p.filename) m)

abbrev pub pending_plan : Files → Manifest → List Package → Plan (Unit {0})
pending_plan files m [] = ([], some tt)
pending_plan files m (p ∷ ps) = then_plan (package_plan files m p) (λ _. pending_plan files m ps)

abbrev pub bodies_plan : Files → Manifest → Plan (Unit {0})
bodies_plan files m =
    if m.options.skip_package_upload then ([], some tt) else pending_plan files m m.pending_uploads

-- One manifest by itself: bodies, immutable indexes, canonical indexes.
abbrev pub manifest_plan : Codec → Files → Manifest → Plan Manifest
manifest_plan c files m = then_plan (bodies_plan files m) λ _.
    then_plan ([], to_option (build_artifacts c m))
      λ a. (
        manifest_by_hash_ops m a ++ (manifest_canonical_ops m a ++ []),
        some (record_artifacts a m),
      )

abbrev pub created_plan : Codec → Files → List Manifest → Plan (List Manifest)
created_plan c files [] = ([], some [])
created_plan c files (m ∷ ms) =
    then_plan (manifest_plan c files m)
      λ published. then_plan (created_plan c files ms) λ rest. ([], some (published ∷ rest))

-- The Release file and its signatures. The old signatures are deleted before an unsigned Release is
-- written; no signed Release is written before both signatures are there.
abbrev pub signed_plan : ReleaseSigner → Release → Text → Plan (Unit {0})
signed_plan sign r text =
    then_plan ([], to_option (signatures sign text))
      λ a. (
        put (release_filename r.codename) (ok text) (text_options r)
            ∷ put (detached_filename r) (ok a.release_gpg) (signature_options r)
            ∷ put (in_release_filename r) (ok a.in_release) (signature_options r)
            ∷ [],
        some tt,
      )

abbrev pub release_file_plan : Option ReleaseSigner → Release → Text → Plan (Unit {0})
release_file_plan none r text = (
  delete (detached_filename r)
      ∷ delete (in_release_filename r)
      ∷ put (release_filename r.codename) (ok text) (text_options r)
      ∷ [],
  some tt,
)
release_file_plan (some sign) r text = signed_plan sign r text

-- The manifests that the release still lacks.
abbrev pub validate_plan : Codec → Files → Release → Plan Release
validate_plan c files r =
    then_plan (created_plan c files (missing_manifests r))
      λ created. ([], some (update_manifests r created))

abbrev pub release_plan : Codec → Files → Release → Plan (Unit {0})
release_plan c files r =
    then_plan (validate_plan c files r)
      λ r'. then_plan ([], to_option (render r')) λ text. release_file_plan r'.signer r' text

-- All immutable indexes, then all canonical ones, then the Release.
abbrev pub metadata_plan : Codec → Files → Release → List Manifest → Plan (Unit {0})
metadata_plan c files r manifests =
    then_plan ([], to_option (prepare_all c r manifests))
      λ (r', prepared).
        then_plan (all_by_hash_ops prepared, some tt)
          λ _. then_plan (all_canonical_ops prepared, some tt) λ _. release_plan c files r'
