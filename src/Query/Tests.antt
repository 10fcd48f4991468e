-- ===== src/Query/Tests.antt =====
-- Queries on a repository with one package that two architectures list.
use deb_s.Prelude.{
  ◌≡◌, refl, true, none, some, [], ◌∷◌, ◌↔◌, Text, codes, ok, err, not_found, equal, if◌then◌else◌,
  Pairwise, trim_suffix, insert,
}
use deb_s.Samples.{host}
use deb_s.Storage.Types.{Store}
use deb_s.Apt.Package.{Package, new_package}
use deb_s.Query.{ListOptions, Match, list, show, exists}
use deb_s.Query.Answers.{exists-show}
use deb_s.Query.Distinct.{Differs, list-Pairwise}

abbrev release_text : Text
release_text = codes "Codename: s\nArchitectures: a b\nComponents: main\n"

abbrev index_text : Text
index_text = codes "Package: t\nVersion: 1\nFilename: p\n"

-- A store of one Release and the same index everywhere else.
abbrev texts : Store (Unit {0})
texts = record {
  get = λ key s. (ok (if equal key (codes "dists/s/Release") then release_text else index_text), s);
  head = λ key s. (err (not_found key), s);
  put = λ key body options s. (ok tt, s);
  delete = λ key s. (ok tt, s);
  copy = λ source destination options s. (ok tt, s);
  list = λ prefix s. (ok [], s);
  delete_if_match = none;
}

abbrev tool : Package
tool = record (new_package host.maintainer) {
  name = codes "t";
  version = codes "1";
  architecture = [];
  maintainer = [];
  category = [];
  description = none;
  index_filename = some (codes "p");
}

abbrev everywhere : ListOptions
everywhere = record { codename = codes "s"; component = codes "main"; architecture = [] }

abbrev found : Match
found = record { name = codes "t"; version = codes "1"; is_found = true }

listed_once : (list texts host everywhere tt).0 ≡ ok (tool ∷ [])
unfolding list trim_suffix
listed_once = refl

it_exists :
    (exists texts host (codes "s") (codes "main") (codes "a") (codes "1") (codes "t" ∷ []) tt).0
    ≡ ok (found ∷ [])
unfolding exists trim_suffix insert
it_exists = refl

exists-show_example : (found.is_found ≡ true) ↔ (
    (p : Package) × ((show texts host
        (codes "s")
        (codes "main")
        (codes "a")
        (codes "t")
        (codes "1")
        tt).0
      ≡ ok p))
exists-show_example =
    exists-show texts host (codes "s") (codes "main") (codes "a") (codes "t") (codes "1") tt found
      it_exists

list-Pairwise_example : Pairwise Differs (tool ∷ [])
list-Pairwise_example = list-Pairwise texts host everywhere tt (tool ∷ []) listed_once
