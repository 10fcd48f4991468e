-- ===== src/Apt/Publish.antt =====
-- internal/apt/release_publish.go and metadata_publish.go: a release is published after its indexes.
pub mod Order
pub mod Trace
use deb_s.Prelude.{
  Bool, true, false, not, ◌||◌, Option, none, some, List, [], ◌∷◌, ◌++◌, if◌then◌else◌, Text, codes,
  equal, contains, lookup, Result, ok, err, failed, empty_signature, wrap, and_then, Exec, pure,
  lift, wrapping, ◌>>=◌, ◌>>◌,
}
use deb_s.GoPath.{join_path, dir}
use deb_s.Digest.{Codec}
use deb_s.Storage.Types.{Store, PutOptions}
use deb_s.Apt.Manifest.Types.{Manifest}
use deb_s.Apt.Manifest.{new_manifest}
use deb_s.Apt.Artifacts.{
  ManifestArtifacts, Files, record_artifacts, build_artifacts, publish_by_hash, publish_canonical,
  publish,
}
use deb_s.Apt.Release.Types.{SignatureArtifacts, ReleaseSigner, Release}
use deb_s.Apt.Release.{release_architectures, release_filename, render, update_manifest}

abbrev pub is_some {ℓ} : {A : Type ℓ} → Option A → Bool
is_some none = false
is_some (some _) = true

-- The name under which the Release lists an index.
abbrev pub index_name : Text → Text → Text
index_name component architecture =
    component ++ (codes "/binary-" ++ (architecture ++ codes "/Packages"))

abbrev pub empty_manifest : Release → Text → Text → Manifest
empty_manifest r component architecture = new_manifest (record {
  codename = r.codename;
  component = component;
  architecture = architecture;
  cache_control = [];
  by_hash = r.by_hash;
  fail_if_exists = false;
  skip_package_upload = false;
})

unfoldable pub missing_in : Release → Text → List Text → List Manifest
unfolding lookup contains
missing_in r component [] = []
missing_in r component (a ∷ rest) =
    let others = missing_in r component rest in
    if is_some (lookup (index_name component a) r.files) || not (contains r.architectures a)
    then others
    else empty_manifest r component a ∷ others

unfoldable pub missing_from : Release → List Text → List Manifest
unfolding missing_in
missing_from r [] = []
missing_from r (component ∷ rest) =
    missing_in r component release_architectures ++ missing_from r rest

-- `MissingManifests`
unfoldable pub missing_manifests : Release → List Manifest
unfolding missing_from
missing_manifests r = missing_from r r.components

abbrev pub update_manifests : Release → List Manifest → Release
update_manifests r [] = r
update_manifests r (m ∷ ms) = update_manifests (update_manifest r m) ms

abbrev pub text_options : Release → PutOptions
text_options r = record {
  content_type = codes "text/plain; charset=utf-8";
  cache_control = r.cache_control;
  metadata = [];
  fail_if_exists = false;
  create_only = false;
  server_side_encryption = false;
}

abbrev pub signature_options : Release → PutOptions
signature_options r = record (text_options r) {
  content_type = codes "application/pgp-signature; charset=us-ascii";
}

abbrev pub detached_filename : Release → Text
detached_filename r = release_filename r.codename ++ codes ".gpg"

unfoldable pub in_release_filename : Release → Text
unfolding release_filename join_path dir
in_release_filename r = join_path (dir (release_filename r.codename) ∷ codes "InRelease" ∷ [])

-- Neither signature may be empty.
abbrev pub both_present : SignatureArtifacts → Result SignatureArtifacts
both_present a =
    if equal a.in_release [] || equal a.release_gpg [] then err (failed empty_signature) else ok a

abbrev pub signatures : ReleaseSigner → Text → Result SignatureArtifacts
signatures sign text = and_then (wrap (sign text)) both_present

module _ {S : Type 0} (store : Store S) where
  abbrev put_text : Text → Text → PutOptions → Exec S (Unit {0})
  put_text key text options = wrapping (store.put key (ok text) options)

  -- Without a signer the old signatures go first, then the Release is written.
  unfoldable pub publish_unsigned : Release → Text → Exec S (Unit {0})
  unfolding release_filename in_release_filename ◌>>=◌
  publish_unsigned r text = do
    wrapping (store.delete (detached_filename r))
    wrapping (store.delete (in_release_filename r))
    put_text (release_filename r.codename) text (text_options r)

  -- With a signer nothing is written before both signatures are there.
  unfoldable pub publish_signed : ReleaseSigner → Release → Text → Exec S (Unit {0})
  unfolding release_filename in_release_filename equal ◌>>=◌
  publish_signed sign r text = do
    a ← lift (signatures sign text)
    put_text (release_filename r.codename) text (text_options r)
    put_text (detached_filename r) a.release_gpg (signature_options r)
    put_text (in_release_filename r) a.in_release (signature_options r)

  abbrev publish_with : Option ReleaseSigner → Release → Text → Exec S (Unit {0})
  publish_with none = publish_unsigned
  publish_with (some sign) = publish_signed sign

module _ {S : Type 0} (store : Store S) (c : Codec) (files : Files) where
  -- The created manifests come back with their files.
  unfoldable pub publish_created : List Manifest → Exec S (List Manifest)
  unfolding publish ◌>>=◌
  publish_created [] = pure []
  publish_created (m ∷ ms) = do
    published ← wrapping (publish store c files m)
    rest ← publish_created ms
    pure (published ∷ rest)

  -- `ValidateOtherManifests`
  unfoldable pub validate_other_manifests : Release → Exec S Release
  unfolding missing_manifests publish_created update_manifest ◌>>=◌
  validate_other_manifests r = do
    created ← publish_created (missing_manifests r)
    pure (update_manifests r created)

  -- `Publish`
  unfoldable pub publish_release : Release → Exec S (Unit {0})
  unfolding validate_other_manifests render publish_unsigned publish_signed ◌>>=◌
  publish_release r = do
    r' ← validate_other_manifests r
    text ← lift (render r')
    publish_with store r'.signer r' text

-- `preparedMetadataManifest`
abbrev pub Prepared : Type 0
Prepared = List (Manifest × ManifestArtifacts)

-- The `prepare` of `PublishMetadata` over a list of manifests.
unfoldable pub prepare : Codec → Release → List Manifest → Result (Release × Prepared)
unfolding build_artifacts record_artifacts update_manifest
prepare c r [] = ok (r, [])
prepare c r (m ∷ ms) = and_then (build_artifacts c m) λ a.
    let m' = record_artifacts a m in
    and_then (prepare c (update_manifest r m') ms) λ (r', rest). ok (r', (m', a) ∷ rest)

-- The changed manifests, and then the empty ones that the release still wants.
unfoldable pub prepare_all : Codec → Release → List Manifest → Result (Release × Prepared)
unfolding prepare missing_manifests
prepare_all c r manifests = and_then (prepare c r manifests) λ (r', changed).
    and_then (prepare c r' (missing_manifests r')) λ (r'', created). ok (r'', changed ++ created)

module _ {S : Type 0} (store : Store S) where
  unfoldable pub all_by_hash : Prepared → Exec S (Unit {0})
  unfolding publish_by_hash ◌>>=◌
  all_by_hash [] = pure tt
  all_by_hash ((m, a) ∷ rest) = do publish_by_hash store m a; all_by_hash rest

  unfoldable pub all_canonical : Prepared → Exec S (Unit {0})
  unfolding publish_canonical ◌>>=◌
  all_canonical [] = pure tt
  all_canonical ((m, a) ∷ rest) = do publish_canonical store m a; all_canonical rest

  -- `PublishMetadata`
  unfoldable pub publish_metadata : Codec → Files → Release → List Manifest → Exec S (Unit {0})
  unfolding prepare_all all_by_hash all_canonical publish_release ◌>>=◌
  publish_metadata c files r manifests = do
    (r', prepared) ← lift (prepare_all c r manifests)
    all_by_hash prepared
    all_canonical prepared
    publish_release store c files r'
