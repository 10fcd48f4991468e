-- ===== src/Query.antt =====
-- internal/query/query.go: listing, showing and finding packages. Nothing is written.
mod Answers
mod Distinct
mod Tests
use deb_s.Prelude.{
  Bool, false, not, ◌&&◌, List, [], ◌∷◌, ◌++◌, any, if◌then◌else◌, Text, equal, Result, ok, err,
  package_not_found, Exec, pure, lift, wrapping, ◌>>=◌,
}
use deb_s.Storage.Types.{Store}
use deb_s.Host.{Host}
use deb_s.Apt.Package.{Package, full_version}
use deb_s.Apt.Manifest.Types.{ManifestOptions, Manifest}
use deb_s.Apt.Manifest.{retrieve_manifest}
use deb_s.Apt.Render.{pointer_value}
use deb_s.Apt.Release.{no_options, retrieve_release}

pub record ListOptions : Type 0 where
  pub codename : Text
  pub component : Text
  pub architecture : Text

pub record Match : Type 0 where
  pub name : Text
  pub version : Text
  pub is_found : Bool

-- `listIdentity`: packages that agree on these are copies of one.
pub record ListIdentity : Type 0 where
  pub name : Text
  pub version : Text
  pub architecture : Text
  pub filename : Text

unfoldable pub identity : Package → ListIdentity
unfolding full_version
identity p = record {
  name = p.name;
  version = full_version p;
  architecture = p.architecture;
  filename = pointer_value p.index_filename;
}

unfoldable pub same_identity : ListIdentity → ListIdentity → Bool
unfolding equal
same_identity a b =
    equal a.name b.name
    && (equal a.version b.version
        && (equal a.architecture b.architecture && equal a.filename b.filename))

-- The identities seen and the packages kept so far.
abbrev pub Seen : Type 0
Seen = List ListIdentity × List Package

unfoldable pub see : Seen → Package → Seen
unfolding identity same_identity any
see (seen, packages) p =
    if any (same_identity (identity p)) seen
    then (seen, packages)
    else (identity p ∷ seen, packages ++ p ∷ [])

unfoldable pub see_all : Seen → List Package → Seen
unfolding see
see_all acc [] = acc
see_all acc (p ∷ ps) = see_all (see acc p) ps

abbrev pub query_options : Text → Text → Text → ManifestOptions
query_options codename component architecture = record {
  codename = codename;
  component = component;
  architecture = architecture;
  cache_control = [];
  by_hash = false;
  fail_if_exists = false;
  skip_package_upload = false;
}

-- The package of that name and version.
unfoldable pub is_wanted : Text → Text → Package → Bool
unfolding equal full_version
is_wanted name version p = equal p.name name && equal (full_version p) version

unfoldable pub find : Text → Text → List Package → Result Package
unfolding is_wanted
find name version [] = err package_not_found
find name version (p ∷ ps) =
    let rest = find name version ps in if is_wanted name version p then ok p else rest

unfoldable pub matches : Text → List Package → List Text → List Match
unfolding is_wanted any
matches version packages [] = []
matches version packages (name ∷ names) =
    record { name = name; version = version; is_found = any (is_wanted name version) packages }
    ∷ matches version packages names

module _ {S : Type 0} (store : Store S) (host : Host) where
  abbrev manifest : Text → Text → Text → Exec S Manifest
  manifest codename component architecture =
      retrieve_manifest store host.maintainer (query_options codename component architecture)

  unfoldable pub list_from : ListOptions → List Text → Seen → Exec S (List Package)
  unfolding equal retrieve_manifest see_all ◌>>=◌
  list_from o [] acc = pure acc.1
  list_from o (architecture ∷ rest) acc =
      if not (equal o.architecture []) && not (equal architecture o.architecture)
      then list_from o rest acc
      else (do
        m ← wrapping (manifest o.codename o.component architecture)
        list_from o rest (see_all acc m.packages))

  -- `List`
  unfoldable pub list : ListOptions → Exec S (List Package)
  unfolding retrieve_release list_from ◌>>=◌
  list o = do
    release ←
        wrapping (retrieve_release store host.clock (record no_options { codename = o.codename }))
    list_from o release.architectures ([], [])

  -- `Show`
  unfoldable pub show : Text → Text → Text → Text → Text → Exec S Package
  unfolding retrieve_manifest find ◌>>=◌
  show codename component architecture name version = do
    m ← wrapping (manifest codename component architecture)
    lift (find name version m.packages)

  -- `Exists`
  unfoldable pub exists : Text → Text → Text → Text → List Text → Exec S (List Match)
  unfolding retrieve_manifest matches ◌>>=◌
  exists codename component architecture version names = do
    m ← wrapping (manifest codename component architecture)
    pure (matches version m.packages names)
