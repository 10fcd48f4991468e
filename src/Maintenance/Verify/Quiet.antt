-- ===== src/Maintenance/Verify/Quiet.antt =====
-- internal/maintenance/maintenance.go: `Verify` where it is neither asked to repair nor to sign.
use deb_s.Prelude.{
  ◌≡◌, refl, ◌∙◌, false, none, List, [], ◌∷◌, Text, Result, ok, err, Bool-cases, inl, inr,
  is_not_found,
}
use deb_s.Storage.Types.{ObjectInfo, Store}
use deb_s.Host.{Host}
use deb_s.Apt.Package.{Package, repository_filename}
use deb_s.Apt.Manifest.Types.{Manifest, ManifestOptions}
use deb_s.Apt.Manifest.{retrieve_manifest}
use deb_s.Apt.Release.Types.{Release, ReleaseOptions}
use deb_s.Apt.Release.{retrieve_release}
use deb_s.Maintenance.Partial.{Partial, done, go_on}
use deb_s.Maintenance.Verify.{
  VerifyOptions, Progress, begin, looked_up, finish_manifest, check_body, check_package,
  check_packages, check_manifest, check_architecture, check_architectures, verify_release, verify,
  verify_manifest_options, verify_release_options, publish_changed,
}

-- The state is the old one, and no manifest is to be published.
abbrev pub IsQuiet : {S : Type 0} → S → (Progress × Result (Unit {0})) × S → Type 0
IsQuiet s q = (q.1 ≡ s) × (q.0.0.changed ≡ [])

go_on-IsQuiet :
    {S : Type 0} (s : S) (first : Partial S Progress) (rest : Progress → Partial S Progress)
    → IsQuiet s (first s)
    → ((v : Progress) → v.changed ≡ [] → IsQuiet s (rest v s))
    → IsQuiet s (go_on first rest s)
go_on-IsQuiet {S = S} s first rest h k = after (first s) h
  where
    after :
        (q : (Progress × Result (Unit {0})) × S) → IsQuiet s q → IsQuiet s (go_on (λ s'. q) rest s)
    after ((v, ok _), s') (e, f) = rw e (k v f)
    after ((v, err x), s') h = h

module _ {S : Type 0} (store : Store S) (host : Host) (o : VerifyOptions)
    (get_is_pure : (key : Text) (s : S) → (store.get key s).1 ≡ s)
    (head_is_pure : (key : Text) (s : S) → (store.head key s).1 ≡ s)
    (no_fix : o.fix_manifests ≡ false) where
  looked_up-changed :
      (p : Package) (v : Progress) (r : Result ObjectInfo)
      → (looked_up o p v r).0.changed ≡ v.changed
  unfolding looked_up
  looked_up-changed p v (ok _) = refl
  looked_up-changed p v (err e) = elim (Bool-cases (is_not_found e)) [
    | inl t ↦ rw t (rw no_fix refl)
    | inr t ↦ rw t refl
  ]

  check_body-IsQuiet :
      (p : Package) (v : Progress) (r : Result Text) (s : S)
      → v.changed ≡ []
      → IsQuiet s (check_body store host o p v r s)
  check_body-IsQuiet p v (err e) s h = (refl, h)
  check_body-IsQuiet p v (ok filename) s h = (head_is_pure filename s, looked_up-changed p v _ ∙ h)

  check_packages-IsQuiet :
      (ps : List Package) (v : Progress) (s : S)
      → v.changed ≡ []
      → IsQuiet s (check_packages store host o ps v s)
  unfolding check_packages check_package
  check_packages-IsQuiet [] v s h = (refl, h)
  check_packages-IsQuiet (p ∷ ps) v s h =
      go_on-IsQuiet s (check_package store host o p v) (check_packages store host o ps)
        (check_body-IsQuiet p _ (repository_filename p o.codename) s h)
        (λ v' h'. check_packages-IsQuiet ps v' s h')

  finish_manifest-changed :
      (m : Manifest) (v : Progress) → (finish_manifest o m v).changed ≡ v.changed
  unfolding finish_manifest
  finish_manifest-changed m v = rw no_fix refl

  check_manifest-IsQuiet :
      (v : Progress) (r : Result Manifest) (s : S)
      → v.changed ≡ []
      → IsQuiet s (check_manifest store host o v r s)
  check_manifest-IsQuiet v (err e) s h = (refl, h)
  check_manifest-IsQuiet v (ok m) s h =
      let fresh = record v { retained = []; missing_for_manifest = 0 } in
      go_on-IsQuiet s (check_packages store host o m.packages fresh)
        (λ v'. done (finish_manifest o m v')) (check_packages-IsQuiet m.packages fresh s h)
        (λ v' h'. (refl, finish_manifest-changed m v' ∙ h'))

  retrieve_manifest-is_pure :
      (options : ManifestOptions) (s : S)
      → (retrieve_manifest store host.maintainer options s).1 ≡ s
  unfolding retrieve_manifest
  retrieve_manifest-is_pure options s = get_is_pure _ s

  retrieve_release-is_pure :
      (options : ReleaseOptions) (s : S) → (retrieve_release store host.clock options s).1 ≡ s
  unfolding retrieve_release
  retrieve_release-is_pure options s = get_is_pure _ s

  check_architecture-IsQuiet :
      (release : Release) (a : Text) (v : Progress) (s : S)
      → v.changed ≡ []
      → IsQuiet s (check_architecture store host o release a v s)
  unfolding check_architecture
  check_architecture-IsQuiet release a v s h =
      let q = retrieve_manifest store host.maintainer (verify_manifest_options o release a) s in
      let same = retrieve_manifest-is_pure (verify_manifest_options o release a) s in
      let (e, f) = check_manifest-IsQuiet v q.0 q.1 h in (e ∙ same, f)

  check_architectures-IsQuiet :
      (release : Release) (l : List Text) (v : Progress) (s : S)
      → v.changed ≡ []
      → IsQuiet s (check_architectures store host o release l v s)
  unfolding check_architectures
  check_architectures-IsQuiet release [] v s h = (refl, h)
  check_architectures-IsQuiet release (a ∷ rest) v s h =
      go_on-IsQuiet s (check_architecture store host o release a v)
        (check_architectures store host o release rest) (check_architecture-IsQuiet release a v s h)
        (λ v' h'. check_architectures-IsQuiet release rest v' s h')

  module _ (no_signer : o.signer ≡ none) where
    publish_changed-IsQuiet :
        (release : Release) (v : Progress) (l : List Manifest) (s : S)
        → l ≡ []
        → v.changed ≡ []
        → IsQuiet s (publish_changed store host o release v l s)
    publish_changed-IsQuiet release v l s e h = rw e (rw no_signer (refl, h))

    verify_release-IsQuiet :
        (r : Result Release) (s : S) → IsQuiet s (verify_release store host o r s)
    verify_release-IsQuiet (err e) s = (refl, refl)
    verify_release-IsQuiet (ok release) s =
        go_on-IsQuiet s (check_architectures store host o release release.architectures begin)
          (λ v. publish_changed store host o release v v.changed)
          (check_architectures-IsQuiet release release.architectures begin s refl)
          (λ v h. publish_changed-IsQuiet release v v.changed s h h)

    -- On a store whose Get and Head leave the state as it is, Verify without FixManifests and
    -- without a signer leaves the state as it is, whatever it finds and whether or not it fails,
    -- and has no manifest to publish.
    pub verify-IsQuiet : (s : S) → IsQuiet s (verify store host o s)
    unfolding verify
    verify-IsQuiet s =
        let q = retrieve_release store host.clock (verify_release_options o) s in
        let (e, f) = verify_release-IsQuiet q.0 q.1 in
        (e ∙ retrieve_release-is_pure (verify_release_options o) s, f)
