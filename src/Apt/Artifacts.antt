-- ===== src/Apt/Artifacts.antt =====
-- internal/apt/manifest_publish.go: the index files of a manifest, and how they are published.
-- gzip and the digests are those of the `Codec`. The transfer callback only reports, and is left out.
use deb_s.Prelude.{
  Bool, true, false, not, List, [], ◌∷◌, ◌++◌, if◌then◌else◌, Text, codes, equal, length,
  has_prefix, insert, Result, ok, failed, no_source_filename, outside_pool, wrap, and_then, Exec,
  pure, raise, lift, wrapping, ◌>>=◌, ◌>>◌,
}
use deb_s.GoPath.{join_path, dir}
use deb_s.Digest.{Codec, encode_to_string}
use deb_s.Storage.Types.{Store, PutOptions}
use deb_s.Apt.Package.{Package, repository_filename}
use deb_s.Apt.Manifest.Types.{FileHashes, Manifest}
use deb_s.Apt.Manifest.{render_manifest, render_packages, packages_path, release_packages_path}

pub record ManifestArtifact : Type 0 where
  pub path : Text
  pub content_type : Text
  pub content : Text
  pub hashes : FileHashes

pub record ManifestArtifacts : Type 0 where
  pub packages : ManifestArtifact
  pub packages_gzip : ManifestArtifact

-- `ByHashPath`
unfoldable pub by_hash_path : ManifestArtifact → Text
unfolding join_path dir
by_hash_path a = join_path (dir a.path ∷ codes "by-hash" ∷ codes "SHA256" ∷ a.hashes.sha256 ∷ [])

abbrev pub artifact_list : ManifestArtifacts → List ManifestArtifact
artifact_list a = a.packages ∷ a.packages_gzip ∷ []

-- `m.Files[name] = hashes` for both indexes.
unfoldable pub record_artifacts : ManifestArtifacts → Manifest → Manifest
unfolding release_packages_path
record_artifacts a m = record m {
  files =
      insert (release_packages_path m.options ++ codes ".gz") a.packages_gzip.hashes
        (insert (release_packages_path m.options) a.packages.hashes m.files);
}

abbrev pub index_options : ManifestArtifact → Text → Bool → PutOptions
index_options a cache_control create_only = record {
  content_type = a.content_type;
  cache_control = cache_control;
  metadata = [];
  fail_if_exists = false;
  create_only = create_only;
  server_side_encryption = false;
}

abbrev pub body_options : Manifest → PutOptions
body_options m = record {
  content_type = codes "application/octet-stream; charset=binary";
  cache_control = m.options.cache_control;
  metadata = [];
  fail_if_exists = m.options.fail_if_exists;
  create_only = false;
  server_side_encryption = false;
}

module _ (c : Codec) where
  unfoldable pub hash_manifest : Text → FileHashes
  hash_manifest content = record {
    size = length content;
    md5 = encode_to_string (c.md5_sum content);
    sha1 = encode_to_string (c.sha1_sum content);
    sha256 = encode_to_string (c.sha256_sum content);
  }

  abbrev pub artifact : Text → Text → Text → ManifestArtifact
  artifact path content_type content = record {
    path = path;
    content_type = content_type;
    content = content;
    hashes = hash_manifest content;
  }

  abbrev artifacts_of : Text → Text → ManifestArtifacts
  artifacts_of path plain = record {
    packages = artifact path (codes "text/plain; charset=utf-8") plain;
    packages_gzip =
        artifact (path ++ codes ".gz") (codes "application/x-gzip; charset=binary") (c.gzip plain);
  }

  -- `BuildArtifacts`; compressing into a buffer does not fail.
  unfoldable pub build_artifacts : Manifest → Result ManifestArtifacts
  unfolding render_packages packages_path hash_manifest
  build_artifacts m =
      and_then (render_manifest m) λ plain. ok (artifacts_of (packages_path m.options) plain)

-- The files of the machine: what opening one gives, and then reading it to the end.
abbrev pub Files : Type 0
Files = Text → Result (Result Text)

module _ {S : Type 0} (store : Store S) where
  abbrev pub put_body : Result (Result Text) → Manifest → Text → Exec S (Unit {0})
  put_body opened m key = do
    body ← lift (wrap opened)
    wrapping (store.put key body (body_options m))

  -- Only keys below pool/ are written.
  unfoldable pub put_checked : Result (Result Text) → Manifest → Text → Exec S (Unit {0})
  unfolding has_prefix ◌>>=◌
  put_checked opened m key =
      if not (has_prefix key (codes "pool/"))
      then raise (failed outside_pool)
      else put_body opened m key

  unfoldable pub publish_package : Files → Manifest → Package → Exec S (Unit {0})
  unfolding equal repository_filename put_checked ◌>>=◌
  publish_package files m pack =
      if equal pack.filename [] then raise (failed no_source_filename) else (do
        key ← lift (repository_filename pack m.options.codename)
        put_checked (files pack.filename) m key)

  unfoldable pub publish_pending : Files → Manifest → List Package → Exec S (Unit {0})
  unfolding publish_package ◌>>=◌
  publish_pending files m [] = pure tt
  publish_pending files m (p ∷ ps) = do publish_package files m p; publish_pending files m ps

  -- `PublishPackages`
  unfoldable pub publish_packages : Files → Manifest → Exec S (Unit {0})
  unfolding publish_pending
  publish_packages files m =
      if m.options.skip_package_upload then pure tt else publish_pending files m m.pending_uploads

  unfoldable pub put_by_hash : Text → List ManifestArtifact → Exec S (Unit {0})
  unfolding by_hash_path ◌>>=◌
  put_by_hash cache_control [] = pure tt
  put_by_hash cache_control (a ∷ rest) = do
    wrapping (store.put (by_hash_path a) (ok a.content) (index_options a cache_control true))
    put_by_hash cache_control rest

  -- `PublishByHash`
  unfoldable pub publish_by_hash : Manifest → ManifestArtifacts → Exec S (Unit {0})
  unfolding put_by_hash
  publish_by_hash m a =
      if not m.options.by_hash
      then pure tt
      else put_by_hash m.options.cache_control (artifact_list a)

  unfoldable pub put_canonical : Text → List ManifestArtifact → Exec S (Unit {0})
  unfolding ◌>>=◌
  put_canonical cache_control [] = pure tt
  put_canonical cache_control (a ∷ rest) = do
    wrapping (store.put a.path (ok a.content) (index_options a cache_control false))
    put_canonical cache_control rest

  -- `PublishCanonical`
  unfoldable pub publish_canonical : Manifest → ManifestArtifacts → Exec S (Unit {0})
  unfolding put_canonical
  publish_canonical m a = put_canonical m.options.cache_control (artifact_list a)

  -- `Publish`: the manifest comes back with its files recorded.
  unfoldable pub publish : Codec → Files → Manifest → Exec S Manifest
  unfolding publish_packages build_artifacts publish_by_hash publish_canonical record_artifacts
      ◌>>=◌
  publish c files m = do
    publish_packages files m
    a ← lift (build_artifacts c m)
    publish_by_hash m a
    publish_canonical m a
    pure (record_artifacts a m)
