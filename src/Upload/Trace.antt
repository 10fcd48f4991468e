-- ===== src/Upload/Trace.antt =====
-- internal/upload/upload.go: the calls that an upload publishes with, in order.
use deb_s.Prelude.{some, [], ◌∷◌}
use deb_s.Storage.Types.{Store}
use deb_s.Storage.Plan.{Plan, then_plan, Follows, Follows-pure, Follows-bind, Follows-wrapping}
use deb_s.Host.{Host}
use deb_s.Apt.Artifacts.{Files}
use deb_s.Apt.Release.Types.{Release}
use deb_s.Apt.Publish.{Prepared}
use deb_s.Apt.Publish.Order.{bodies_plan, all_by_hash_ops, all_canonical_ops, release_plan}
use deb_s.Apt.Publish.Trace.{
  publish_packages-Follows, all_by_hash-Follows, all_canonical-Follows, publish_release-Follows,
}
use deb_s.Upload.{UploadOptions, all_packages, publish_all}

-- The bodies of all manifests.
abbrev pub all_bodies_plan : Files → Prepared → Plan (Unit {0})
all_bodies_plan files [] = ([], some tt)
all_bodies_plan files ((m, a) ∷ rest) =
    then_plan (bodies_plan files m) λ _. all_bodies_plan files rest

-- No index before the last body, no canonical index before the last immutable one, and the Release
-- at the end.
abbrev pub upload_plan : Host → Release → Prepared → Plan (Unit {0})
upload_plan host release prepared = then_plan (all_bodies_plan host.files prepared) λ _.
    then_plan (all_by_hash_ops prepared, some tt)
      λ _.
        then_plan (all_canonical_ops prepared, some tt)
          λ _. release_plan host.codec host.files release

module _ {S : Type 0} (store : Store S) (host : Host) (o : UploadOptions) where
  all_packages-Follows :
      (prepared : Prepared)
      → Follows store (all_packages store host o prepared) (all_bodies_plan host.files prepared)
  unfolding all_packages
  all_packages-Follows [] = Follows-pure tt
  all_packages-Follows ((m, a) ∷ rest) =
      Follows-bind _ _ _ _ (Follows-wrapping _ _ (publish_packages-Follows store host.files m))
        (λ _. all_packages-Follows rest)

  -- On any store and from any state, the publishing part of Upload makes the calls of upload_plan
  -- in order up to the first that fails, and no other call: the bodies of all manifests, then all
  -- immutable indexes, then all canonical indexes, then what the Release needs. It succeeds
  -- exactly when none of the calls fails and the plan has a value; the plan has none, and ends
  -- early, where a package body cannot be named or read, an index or the Release cannot be built,
  -- or the signer fails.
  pub publish_all-Follows :
      (release : Release) (prepared : Prepared)
      → Follows store
          (publish_all store host o release prepared)
          (upload_plan host release prepared)
  unfolding publish_all
  publish_all-Follows release prepared = Follows-bind _ _ _ _ (all_packages-Follows prepared) λ _.
      Follows-bind _ _ _ _ (Follows-wrapping _ _ (all_by_hash-Follows store prepared)) λ _.
        Follows-bind _ _ _ _ (Follows-wrapping _ _ (all_canonical-Follows store prepared))
          λ _. Follows-wrapping _ _ (publish_release-Follows store host.files host.codec release)
