-- ===== src/Apt/Manifest.antt =====
-- internal/apt/manifest.go and manifest_retrieve.go: the packages of one index. A manifest's store
-- is an argument of the operations that use it.
pub mod Types
pub mod Chosen
pub mod Changes
use deb_s.Prelude.{
  ℕ, zero, suc, ◌+◌, Bool, true, false, not, ◌&&◌, ◌||◌, Option, none, some, List, [], ◌∷◌, ◌++◌,
  ◌==◌, if◌then◌else◌, Text, codes, equal, trim, is_space, onto_first, contains, any, keep, Dict,
  Error, Result, ok, err, failed, package_conflict, wrapped, wrap, is_not_found, and_then, Exec,
  ◌>>=◌,
}
use deb_s.GoPath.{slash, join_path, base}
use deb_s.Storage.Types.{Store}
use deb_s.Apt.Package.{Package, full_version, repository_filename}
use deb_s.Apt.Package.Parse.{parse_package}
use deb_s.Apt.Render.{render}
use Types.{FileHashes, ManifestOptions, Manifest}

abbrev pub new_manifest : ManifestOptions → Manifest
new_manifest options = record { options = options; packages = []; pending_uploads = []; files = [] }

abbrev pub is_blank : ℕ → Bool
is_blank c = c == b'\t' || c == b' '

-- `[\t ]*\r?\n` behind `n` bytes of the separator: the length of the whole separator, or 0.
abbrev pub newline_length : ℕ → Text → ℕ
newline_length n [] = 0
newline_length n (c ∷ []) = if c == 10 then suc n else 0
newline_length n (c ∷ d ∷ ds) =
    if c == 10 then suc n else if c == 13 && d == 10 then suc (suc n) else 0

unfoldable pub blank_length : ℕ → Text → ℕ
blank_length n [] = 0
blank_length n (c ∷ cs) =
    let rest = blank_length (suc n) cs in if is_blank c then rest else newline_length n (c ∷ cs)

-- The length of `paragraphSeparator` at the start of the text, or 0 where it does not match.
unfoldable pub separator_length : Text → ℕ
unfolding blank_length
separator_length [] = 0
separator_length (c ∷ []) = 0
separator_length (c ∷ d ∷ ds) =
    if c == 10 then blank_length 1 (d ∷ ds) else if c == 13 && d == 10 then blank_length 2 ds else 0

-- `paragraphSeparator.Split(input, -1)`, with the bytes of a separator still to be passed over.
unfoldable pub paragraphs : ℕ → Text → List Text
unfolding separator_length
paragraphs skip [] = [] ∷ []
paragraphs (suc skip) (c ∷ cs) = paragraphs skip cs
paragraphs zero (c ∷ cs) = elim (separator_length (c ∷ cs)) [
  | zero ↦ onto_first c (paragraphs 0 cs)
  | suc n ↦ [] ∷ paragraphs n cs
]

unfoldable pub is_white : Text → Bool
unfolding equal trim
is_white s = equal (trim is_space s) []

unfoldable pub parse_all : Text → List Text → Result (List Package)
unfolding is_white parse_package
parse_all maintainer [] = ok []
parse_all maintainer (p ∷ ps) =
    let rest = parse_all maintainer ps in
    if is_white p
    then rest
    else and_then (wrap (parse_package maintainer p))
        λ pack. and_then rest λ packs. ok (pack ∷ packs)

unfoldable pub parse_packages : Text → Text → Result (List Package)
unfolding parse_all paragraphs
parse_packages maintainer input =
    if is_white input then ok [] else parse_all maintainer (paragraphs 0 input)

-- The records of the packages with empty lines between them.
unfoldable pub render_packages : Text → List Package → Result Text
unfolding render
render_packages codename [] = ok []
render_packages codename (p ∷ []) = wrap (render p codename)
render_packages codename (p ∷ q ∷ ps) =
    and_then (wrap (render p codename))
      λ text. and_then (render_packages codename (q ∷ ps)) λ rest. ok (text ++ (b'\n' ∷ rest))

abbrev pub render_manifest : Manifest → Result Text
render_manifest m = render_packages m.options.codename m.packages

abbrev pub same_version : Package → Package → Bool
same_version p q = equal p.name q.name && equal (full_version p) (full_version q)

-- The loop of `Add` under `FailIfExists`: a package of the same name and version must have the same
-- file name.
unfoldable pub check_conflicts : Text → Package → Text → List Package → Result (Unit {0})
unfolding equal full_version repository_filename base
check_conflicts codename pack new_filename [] = ok tt
check_conflicts codename pack new_filename (existing ∷ rest) =
    let others = check_conflicts codename pack new_filename rest in
    if not (same_version existing pack)
    then others
    else and_then (repository_filename existing codename) λ existing_filename.
      if not (equal (base existing_filename) (base new_filename))
      then err (package_conflict pack.name (full_version pack) existing_filename new_filename)
      else others

unfoldable pub check_exists : Manifest → Package → Result (Unit {0})
unfolding check_conflicts
check_exists m pack =
    if m.options.fail_if_exists
    then and_then (repository_filename pack m.options.codename)
        (λ new_filename. check_conflicts m.options.codename pack new_filename m.packages)
    else ok tt

-- The packages that a new one takes the place of.
unfoldable pub replaced : Package → Bool → Package → Bool
unfolding equal full_version
replaced pack preserve_versions existing =
    if preserve_versions then same_version existing pack else equal existing.name pack.name

abbrev pub with_package : Package → Bool → Bool → Manifest → Manifest
with_package pack preserve_versions needs_uploading m = record m {
  packages =
      keep (λ existing. not (replaced pack preserve_versions existing)) m.packages ++ pack ∷ [];
  pending_uploads = (if needs_uploading then m.pending_uploads ++ pack ∷ [] else m.pending_uploads);
}

-- `Add`
unfoldable pub add : Manifest → Package → Bool → Bool → Result Manifest
unfolding check_exists replaced keep
add m pack preserve_versions needs_uploading =
    and_then (check_exists m pack) λ _. ok (with_package pack preserve_versions needs_uploading m)

-- One of the versions is the package's upstream version, with its iteration, or in full.
abbrev pub version_wanted : Option (List Text) → Package → Bool
version_wanted none p = true
version_wanted (some versions) p =
    contains versions p.version
    || contains versions (p.version ++ b'-' ∷ p.iteration)
    || contains versions (full_version p)

unfoldable pub removes : Text → Option (List Text) → Package → Bool
unfolding equal contains full_version
removes name versions p = equal p.name name && version_wanted versions p

-- `DeletePackage`: the manifest without the packages, and the packages.
unfoldable pub delete_package : Manifest → Text → Option (List Text) → Manifest × List Package
unfolding removes keep
delete_package m name versions = (
  record m { packages = keep (λ p. not (removes name versions p)) m.packages },
  keep (removes name versions) m.packages,
)

unfoldable pub packages_path : ManifestOptions → Text
unfolding join_path
packages_path o = join_path (
    codes "dists"
    ∷ o.codename
    ∷ o.component
    ∷ (codes "binary-" ++ o.architecture)
    ∷ codes "Packages"
    ∷ [])

unfoldable pub release_packages_path : ManifestOptions → Text
unfolding join_path
release_packages_path o =
    join_path (o.component ∷ (codes "binary-" ++ o.architecture) ∷ codes "Packages" ∷ [])

module _ {S : Type 0} (store : Store S) (maintainer : Text) where
  abbrev parsed_manifest : ManifestOptions → Result Text → Result Manifest
  parsed_manifest options (ok text) =
      and_then (parse_packages maintainer text)
        λ packages. ok (record (new_manifest options) { packages = packages })
  parsed_manifest options (err e) =
      if is_not_found e then ok (new_manifest options) else err (wrapped e)

  -- `RetrieveManifest`: an index that is not there is an empty manifest.
  unfoldable pub retrieve_manifest : ManifestOptions → Exec S Manifest
  unfolding packages_path parse_packages
  retrieve_manifest options s =
      let (text, s') = store.get (packages_path options) s in (parsed_manifest options text, s')
