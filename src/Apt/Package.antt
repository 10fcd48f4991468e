-- ===== src/Apt/Package.antt =====
-- internal/apt/package.go: packages, their versions and their keys under pool/. `maintainer` is
-- what `NewPackage` reads from the host and the environment.
pub mod Parse
use deb_s.Prelude.{
  ℕ, zero, suc, Bool, true, false, not, ◌&&◌, ◌||◌, Option, none, some, List, [], ◌∷◌, ◌++◌, ◌==◌,
  ltb, if◌then◌else◌, Text, codes, equal, length, Result, ok, err, failed, no_package_name,
  no_source_filename, no_pool_path, cut, all, take,
}
use deb_s.GoPath.{slash, clean, base}
use deb_s.Apt.Control.{Field}

pub record Package : Type 0 where
  pub name : Text
  pub version : Text
  pub epoch : Text
  pub iteration : Text
  pub iteration_present : Bool
  pub architecture : Text
  pub maintainer : Text
  pub category : Text
  pub license : Text
  pub vendor : Text
  pub homepage : Option Text
  pub origin : Option Text
  pub priority : Option Text
  pub installed_size : Option Text
  pub description : Option Text
  pub index_filename : Option Text
  pub size : Option Text
  pub sha1 : Option Text
  pub sha256 : Option Text
  pub md5 : Option Text
  pub dependencies : List Text
  pub pre_depends : Option Text
  pub recommends : Option Text
  pub suggests : Option Text
  pub enhances : Option Text
  pub breaks : Option Text
  pub conflicts : Option Text
  pub provides : Option Text
  pub replaces : Option Text
  pub extra_fields : List Field
  pub filename : Text
  pub no_depends : Bool
  pub ignore_iteration_in_dependencies : Bool

abbrev pub new_package : Text → Package
new_package maintainer = record {
  name = [];
  version = [];
  epoch = [];
  iteration = [];
  iteration_present = false;
  architecture = codes "native";
  maintainer = maintainer;
  category = codes "default";
  license = codes "unknown";
  vendor = codes "none";
  homepage = none;
  origin = none;
  priority = none;
  installed_size = none;
  description = some (codes "no description given");
  index_filename = none;
  size = none;
  sha1 = none;
  sha256 = none;
  md5 = none;
  dependencies = [];
  pre_depends = none;
  recommends = none;
  suggests = none;
  enhances = none;
  breaks = none;
  conflicts = none;
  provides = none;
  replaces = none;
  extra_fields = [];
  filename = [];
  no_depends = false;
  ignore_iteration_in_dependencies = false;
}

unfoldable pub full_version : Package → Text
unfolding equal
full_version p =
    if equal p.epoch [] && equal p.version [] && equal p.iteration [] && not p.iteration_present
    then []
    else (if equal p.epoch [] then p.version else p.epoch ++ b':' ∷ p.version)
      ++ (if p.iteration_present || not (equal p.iteration []) then b'-' ∷ p.iteration else [])

-- The key of a package's body under pool/.
unfoldable pub pool_path : Text → Package → Text
unfolding base
pool_path codename p =
    codes "pool/"
    ++ (codename
        ++ (slash ∷ (take 1 p.name ++ (slash ∷ (take 2 p.name ++ (slash ∷ base p.filename))))))

abbrev pub filename_or : Option Text → Result Text → Result Text
filename_or (some index_filename) derived = ok index_filename
filename_or none derived = derived

unfoldable pub repository_filename : Package → Text → Result Text
unfolding equal pool_path clean
repository_filename p codename = filename_or p.index_filename (
    if equal p.name []
    then err (failed no_package_name)
    else if equal p.filename []
    then err (failed no_source_filename)
    else if not (equal (pool_path codename p) (clean (pool_path codename p)))
    then err (failed no_pool_path)
    else ok (pool_path codename p))

abbrev pub extra_name : Text → Option (Text × Text) → Text
extra_name name none = name
extra_name name (some (before, after)) =
    if ltb 3 (length before) || not (all (λ c. c == b'B' || c == b'C' || c == b'S') before)
    then name
    else after

-- `XBC-Name` and the like are written `Name`.
unfoldable pub normalize_extra_field_name : Text → Text
unfolding cut all
normalize_extra_field_name [] = []
normalize_extra_field_name (c ∷ rest) =
    if c == b'X' then extra_name (c ∷ rest) (cut b'-' rest) else c ∷ rest

unfoldable pub set_extra_field : Field → List Field → List Field
unfolding equal
set_extra_field field [] = field ∷ []
set_extra_field field (f ∷ fs) =
    if equal f.name field.name
    then record f { value = field.value } ∷ fs
    else f ∷ set_extra_field field fs
