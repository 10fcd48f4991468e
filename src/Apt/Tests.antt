-- ===== src/Apt/Tests.antt =====
-- Runs on a small repository: a manifest with two versions of one package.
use deb_s.Prelude.{
  if◌then◌else◌, ◌+◌, ◌≡◌, refl, true, false, none, some, [], ◌∷◌, Text, codes, ok, Has, ◌⊎◌, ◌↔◌,
  length, equal,
}
use deb_s.Samples.{codec}
use deb_s.Storage.Memory.{memory_store}
use deb_s.Storage.Plan.{Follows}
use deb_s.Apt.Control.{parse_paragraph, set, get}
use deb_s.Apt.Control.Indexed.{IsIndexed, get-set, parse_paragraph-IsIndexed}
use deb_s.Apt.Package.{Package, new_package, full_version}
use deb_s.Apt.Manifest.Types.{ManifestOptions, Manifest}
use deb_s.Apt.Manifest.{new_manifest, add, with_package, delete_package}
use deb_s.Apt.Manifest.Chosen.{Replaces, IsAsked}
use deb_s.Apt.Manifest.Changes.{IsUnique, add-IsUnique, Has-add, delete_package_lem}
use deb_s.Apt.Artifacts.{Files}
use deb_s.Apt.Release.Types.{Release}
use deb_s.Apt.Release.{new_release, no_options}
use deb_s.Apt.Publish.{publish_metadata}
use deb_s.Apt.Publish.Order.{metadata_plan}
use deb_s.Apt.Publish.Trace.{publish_metadata-Follows}

-- Every file is there, and holds its own name.
abbrev named_files : Files
named_files name = ok (ok name)

abbrev package_of : Text → Text → Package
package_of name version = record (new_package (codes "<me@host>")) {
  name = name;
  version = version;
  architecture = codes "amd64";
  filename = name;
}

abbrev options : ManifestOptions
options = record {
  codename = codes "stable";
  component = codes "main";
  architecture = codes "amd64";
  cache_control = [];
  by_hash = true;
  fail_if_exists = false;
  skip_package_upload = false;
}

abbrev one : Package
one = package_of (codes "tool") (codes "1")

abbrev two : Package
two = package_of (codes "tool") (codes "2")

abbrev other : Package
other = package_of (codes "lib") (codes "1")

abbrev two_versions : Manifest
two_versions = record (new_manifest options) { packages = one ∷ two ∷ [] }

abbrev with_other : Manifest
with_other = with_package other true true two_versions

two_versions-IsUnique : IsUnique two_versions.packages
unfolding equal full_version
two_versions-IsUnique = ((refl, tt), (tt, tt))

add-other : add two_versions other true true ≡ ok with_other
unfolding add
add-other = refl

add-IsUnique_example : IsUnique with_other.packages
add-IsUnique_example =
    add-IsUnique two_versions other true true with_other two_versions-IsUnique add-other

Has-add_example :
    Has one with_other.packages
    ↔ ((Has one two_versions.packages × (¬ Replaces other true one)) ⊎ (one ≡ other))
Has-add_example = Has-add two_versions other true true with_other add-other one

delete_package_lem_example :
    (Has one (delete_package two_versions (codes "tool") (some (codes "1" ∷ []))).1
      ↔ (Has one two_versions.packages × IsAsked (codes "tool") (some (codes "1" ∷ [])) one))
    × (Has one (delete_package two_versions (codes "tool") (some (codes "1" ∷ []))).0.packages
        ↔ (Has one two_versions.packages × (¬ IsAsked (codes "tool") (some (codes "1" ∷ [])) one)))
    × (length (delete_package two_versions (codes "tool") (some (codes "1" ∷ []))).1
          + length (delete_package two_versions (codes "tool") (some (codes "1" ∷ []))).0.packages
        ≡ length two_versions.packages)
delete_package_lem_example =
    delete_package_lem two_versions (codes "tool") (some (codes "1" ∷ [])) one

abbrev stable : Release
stable =
    new_release (codes "now") (record no_options { codename = codes "stable"; by_hash = some true })

publish_metadata-Follows_example :
    Follows
      (memory_store codec none 1)
      (publish_metadata (memory_store codec none 1) codec named_files stable (two_versions ∷ []))
      (metadata_plan codec named_files stable (two_versions ∷ []))
publish_metadata-Follows_example =
    publish_metadata-Follows (memory_store codec none 1) named_files codec stable
      (two_versions ∷ [])

abbrev two_fields : Text
two_fields = codes "Package: tool\nDescription: a\n b\nPackage: lib\n"

parse_paragraph-IsIndexed_example : IsIndexed (parse_paragraph two_fields)
parse_paragraph-IsIndexed_example = parse_paragraph-IsIndexed two_fields

get-set_example :
    get (set (codes "Package") (codes "x") (parse_paragraph two_fields)) (codes "Description") ≡ (
      if equal (codes "Package") (codes "Description")
      then some (codes "x")
      else get (parse_paragraph two_fields) (codes "Description"))
get-set_example =
    get-set (parse_paragraph two_fields) (parse_paragraph-IsIndexed two_fields) (codes "Package")
      (codes "x") (codes "Description")
