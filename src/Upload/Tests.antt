-- ===== src/Upload/Tests.antt =====
-- The publication of an upload of one package.
use deb_s.Prelude.{true, false, none, some, [], ◌∷◌, Text, codes}
use deb_s.Samples.{codec, host}
use deb_s.Storage.Memory.{memory_store}
use deb_s.Storage.Plan.{Follows}
use deb_s.Apt.Package.{Package, new_package}
use deb_s.Apt.Manifest.{new_manifest}
use deb_s.Apt.Artifacts.{ManifestArtifact}
use deb_s.Apt.Release.Types.{Release}
use deb_s.Apt.Release.{new_release, no_options}
use deb_s.Apt.Publish.{Prepared}
use deb_s.Upload.{UploadOptions, publish_all}
use deb_s.Upload.Trace.{upload_plan, publish_all-Follows}

abbrev options : UploadOptions
options = record {
  codename = codes "s";
  component = codes "main";
  origin = none;
  suite = none;
  architecture = [];
  architecture_set = false;
  preserve_versions = true;
  fail_if_exists = false;
  skip_package_upload = false;
  cache_control = [];
  by_hash = some true;
  signer = none;
  now = none;
}

abbrev tool : Package
tool = record (new_package []) { name = codes "t"; version = codes "1"; filename = codes "t.deb" }

abbrev index_of : Text → ManifestArtifact
index_of path = record {
  path = path;
  content_type = codes "text/plain";
  content = codes "Package: t\n";
  hashes = record { size = 11; md5 = codes "aa"; sha1 = codes "bb"; sha256 = codes "cc" };
}

abbrev prepared : Prepared
prepared =
    (
      record (new_manifest (record {
        codename = codes "s";
        component = codes "main";
        architecture = codes "amd64";
        cache_control = [];
        by_hash = true;
        fail_if_exists = false;
        skip_package_upload = false;
      })) { packages = tool ∷ []; pending_uploads = tool ∷ [] },
      record {
        packages = index_of (codes "Packages");
        packages_gzip = index_of (codes "Packages.gz");
      },
    )
    ∷ []

abbrev stable : Release
stable = new_release (codes "now") (record no_options { codename = codes "s" })

publish_all-Follows_example :
    Follows
      (memory_store codec none 1)
      (publish_all (memory_store codec none 1) host options stable prepared)
      (upload_plan host stable prepared)
publish_all-Follows_example =
    publish_all-Follows (memory_store codec none 1) host options stable prepared
