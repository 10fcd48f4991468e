-- ===== src/Apt/Publish/Trace.antt =====
-- internal/apt: publication against its plan of calls.
use deb_s.Prelude.{
  Option, none, some, List, [], ◌∷◌, Text, codes, equal, has_prefix, Result, wrap, Bool-cases, inl,
  inr, failed, no_source_filename, outside_pool,
}
use deb_s.Digest.{Codec}
use deb_s.Storage.Types.{Store}
use deb_s.Storage.Plan.{
  then_plan, Follows, Follows-pure, Follows-raise, Follows-if, Follows-lift, Follows-wrapping,
  Follows-bind, Follows-put, Follows-delete,
}
use deb_s.Apt.Package.{Package, repository_filename}
use deb_s.Apt.Manifest.Types.{Manifest}
use deb_s.Apt.Artifacts.{
  ManifestArtifact, ManifestArtifacts, Files, artifact_list, put_by_hash, put_canonical,
  put_checked, publish_package, publish_pending, publish_packages, publish_by_hash,
  publish_canonical, publish,
}
use deb_s.Apt.Release.Types.{ReleaseSigner, Release}
use deb_s.Apt.Publish.{
  Prepared, missing_manifests, update_manifests, all_by_hash, all_canonical, publish_unsigned,
  publish_signed, publish_created, publish_release, validate_other_manifests, publish_metadata,
  publish_with, prepare_all,
}
use deb_s.Apt.Publish.Order.{
  by_hash_ops, canonical_ops, manifest_by_hash_ops, all_by_hash_ops, all_canonical_ops,
  checked_plan, package_plan, pending_plan, bodies_plan, manifest_plan, created_plan,
  release_file_plan, release_plan, metadata_plan,
}

module _ {S : Type 0} (store : Store S) where
  put_by_hash-Follows :
      (cache_control : Text) (l : List ManifestArtifact)
      → Follows store (put_by_hash store cache_control l) (by_hash_ops cache_control l, some tt)
  unfolding put_by_hash
  put_by_hash-Follows cache_control [] = Follows-pure tt
  put_by_hash-Follows cache_control (a ∷ rest) =
      Follows-bind _ _ _ _ (Follows-wrapping _ _ (Follows-put _ _ _))
        (λ _. put_by_hash-Follows cache_control rest)

  put_canonical-Follows :
      (cache_control : Text) (l : List ManifestArtifact)
      → Follows store (put_canonical store cache_control l) (canonical_ops cache_control l, some tt)
  unfolding put_canonical
  put_canonical-Follows cache_control [] = Follows-pure tt
  put_canonical-Follows cache_control (a ∷ rest) =
      Follows-bind _ _ _ _ (Follows-wrapping _ _ (Follows-put _ _ _))
        (λ _. put_canonical-Follows cache_control rest)

  publish_by_hash-Follows :
      (m : Manifest) (a : ManifestArtifacts)
      → Follows store (publish_by_hash store m a) (manifest_by_hash_ops m a, some tt)
  unfolding publish_by_hash
  publish_by_hash-Follows m a = elim (Bool-cases m.options.by_hash) [
    | inl e ↦ rw e (put_by_hash-Follows m.options.cache_control (artifact_list a))
    | inr e ↦ rw e (Follows-pure tt)
  ]

  pub all_by_hash-Follows :
      (prepared : Prepared)
      → Follows store (all_by_hash store prepared) (all_by_hash_ops prepared, some tt)
  unfolding all_by_hash
  all_by_hash-Follows [] = Follows-pure tt
  all_by_hash-Follows ((m, a) ∷ rest) =
      Follows-bind _ _ _ _ (publish_by_hash-Follows m a) (λ _. all_by_hash-Follows rest)

  pub all_canonical-Follows :
      (prepared : Prepared)
      → Follows store (all_canonical store prepared) (all_canonical_ops prepared, some tt)
  unfolding all_canonical publish_canonical
  all_canonical-Follows [] = Follows-pure tt
  all_canonical-Follows ((m, a) ∷ rest) =
      Follows-bind _ _ _ _ (put_canonical-Follows m.options.cache_control (artifact_list a))
        (λ _. all_canonical-Follows rest)

  module _ (files : Files) where
    put_checked-Follows :
        (opened : Result (Result Text)) (m : Manifest) (key : Text)
        → Follows store (put_checked store opened m key) (checked_plan opened m key)
    unfolding put_checked
    put_checked-Follows opened m key = elim (Bool-cases (has_prefix key (codes "pool/"))) [
      | inl h ↦ rw h (
          Follows-bind _ _ _ _ (Follows-lift (wrap opened))
            λ body. Follows-wrapping _ _ (Follows-put _ _ _))
      | inr h ↦ rw h (Follows-raise (failed outside_pool))
    ]

    publish_package-Follows :
        (m : Manifest) (p : Package)
        → Follows store (publish_package store files m p) (package_plan files m p)
    unfolding publish_package
    publish_package-Follows m p =
        let named =
          Follows-bind _ _ _ _ (Follows-lift (repository_filename p m.options.codename))
            (put_checked-Follows (files p.filename) m) in
        elim (Bool-cases (equal p.filename [])) [
          | inl e ↦ rw e (Follows-raise (failed no_source_filename))
          | inr e ↦ rw e (rw e at named)
        ]

    publish_pending-Follows :
        (m : Manifest) (ps : List Package)
        → Follows store (publish_pending store files m ps) (pending_plan files m ps)
    unfolding publish_pending
    publish_pending-Follows m [] = Follows-pure tt
    publish_pending-Follows m (p ∷ ps) =
        Follows-bind _ _ _ _ (publish_package-Follows m p) (λ _. publish_pending-Follows m ps)

    pub publish_packages-Follows :
        (m : Manifest) → Follows store (publish_packages store files m) (bodies_plan files m)
    unfolding publish_packages
    publish_packages-Follows m =
        Follows-if m.options.skip_package_upload _ _ _ _ (Follows-pure tt)
          (publish_pending-Follows m m.pending_uploads)

    module _ (c : Codec) where
      publish-Follows :
          (m : Manifest) → Follows store (publish store c files m) (manifest_plan c files m)
      unfolding publish publish_canonical
      publish-Follows m = Follows-bind _ _ _ _ (publish_packages-Follows m) λ _.
          Follows-bind _ _ _ _ (Follows-lift _) λ a.
            Follows-bind _ _ _ _ (publish_by_hash-Follows m a) λ _.
              Follows-bind _ _ _ _ (put_canonical-Follows m.options.cache_control (artifact_list a))
                λ _. Follows-pure _

      publish_created-Follows :
          (ms : List Manifest)
          → Follows store (publish_created store c files ms) (created_plan c files ms)
      unfolding publish_created
      publish_created-Follows [] = Follows-pure []
      publish_created-Follows (m ∷ ms) =
          Follows-bind _ _ _ _ (Follows-wrapping _ _ (publish-Follows m))
            λ published. Follows-bind _ _ _ _ (publish_created-Follows ms) λ rest. Follows-pure _

      release_file-Follows :
          (signer : Option ReleaseSigner) (r : Release) (text : Text)
          → Follows store (publish_with store signer r text) (release_file_plan signer r text)
      unfolding publish_unsigned publish_signed
      release_file-Follows none r text =
          Follows-bind _ _ _ _ (Follows-wrapping _ _ (Follows-delete _)) λ _.
            Follows-bind _ _ _ _ (Follows-wrapping _ _ (Follows-delete _))
              λ _. Follows-wrapping _ _ (Follows-put _ _ _)
      release_file-Follows (some sign) r text = Follows-bind _ _ _ _ (Follows-lift _) λ a.
          Follows-bind _ _ _ _ (Follows-wrapping _ _ (Follows-put _ _ _)) λ _.
            Follows-bind _ _ _ _ (Follows-wrapping _ _ (Follows-put _ _ _))
              λ _. Follows-wrapping _ _ (Follows-put _ _ _)

      validate_other_manifests-Follows :
          (r : Release)
          → Follows store (validate_other_manifests store c files r) (
              then_plan
                (created_plan c files (missing_manifests r))
                λ created. ([], some (update_manifests r created)))
      unfolding validate_other_manifests
      validate_other_manifests-Follows r =
          Follows-bind _ _ _ _ (publish_created-Follows (missing_manifests r))
            λ created. Follows-pure _

      pub publish_release-Follows :
          (r : Release) → Follows store (publish_release store c files r) (release_plan c files r)
      unfolding publish_release
      publish_release-Follows r =
          Follows-bind _ _ _ _ (validate_other_manifests-Follows r) λ r'.
            Follows-bind _ _ _ _ (Follows-lift _) λ text. release_file-Follows r'.signer r' text

      -- On any store and from any state, PublishMetadata makes the calls of metadata_plan in
      -- order up to the first that fails, and no other call: all immutable indexes, then all
      -- canonical indexes, then the missing manifests, and last, once it is signed, the Release
      -- with its signatures. It succeeds exactly when none of the calls fails and the plan has a
      -- value; the plan has none, and ends early, where an index or the Release cannot be built,
      -- a package body cannot be named or read, or the signer fails.
      pub publish_metadata-Follows :
          (r : Release) (manifests : List Manifest)
          → Follows store
              (publish_metadata store c files r manifests)
              (metadata_plan c files r manifests)
      unfolding publish_metadata
      publish_metadata-Follows r manifests =
          Follows-bind _ _ _ _ (Follows-lift (prepare_all c r manifests)) λ (r', prepared).
            Follows-bind _ _ _ _ (all_by_hash-Follows prepared) λ _.
              Follows-bind _ _ _ _ (all_canonical-Follows prepared) λ _. publish_release-Follows r'
