-- ===== src/Apt/Manifest/Chosen.antt =====
-- internal/apt/manifest.go: the packages that `Add` replaces and that `DeletePackage` removes, without
-- the tests.
use deb_s.Prelude.{
  ◌≡◌, sym, ◌↔◌, ◌⊎◌, inl, inr, true, false, Bool, Option, none, some, List, [], ◌∷◌, ◌++◌, Text,
  contains, equal_iff, Has, here, there, and-true, and-any, or_iff,
}
use deb_s.Apt.Package.{Package, full_version}
use deb_s.Apt.Manifest.{replaced, removes}

-- What Add is for: the new package takes the place of the packages with its name, and where versions
-- are preserved, of those with its name and full version only.
abbrev pub Replaces : Package → Bool → Package → Type 0
Replaces pack true q = (q.name ≡ pack.name) × (full_version q ≡ full_version pack)
Replaces pack false q = q.name ≡ pack.name

pub replaced_lem :
    (pack : Package) (preserve_versions : Bool) (q : Package)
    → (replaced pack preserve_versions q ≡ true) ↔ Replaces pack preserve_versions q
unfolding replaced
replaced_lem pack true q =
    and-true _ _ _ _ (equal_iff q.name pack.name) (equal_iff (full_version q) (full_version pack))
replaced_lem pack false q = equal_iff q.name pack.name

first_or_later : (x : Text) (xs : List Text) (t : Text) → (x ≡ t) ⊎ Has t xs → Has t (x ∷ xs)
first_or_later x xs t (inl e) = here (sym e)
first_or_later x xs t (inr h) = there h

split_first : (x : Text) (xs : List Text) (t : Text) → Has t (x ∷ xs) → (x ≡ t) ⊎ Has t xs
split_first x xs t (here e) = inl (sym e)
split_first x xs t (there h) = inr h

contains_lem : (texts : List Text) (t : Text) → (contains texts t ≡ true) ↔ Has t texts
unfolding contains
contains_lem [] t = ((λ h. cc), (λ h. elim h [ ]))
contains_lem (x ∷ xs) t =
    let (found, tested) = or_iff _ _ _ _ (equal_iff x t) (contains_lem xs t) in
    (λ h. first_or_later x xs t (found h), λ k. tested (split_first x xs t k))

-- What is asked of DeletePackage: a package of the name, in any version or in one of the versions,
-- which are given as an upstream version, with an iteration, or in full.
abbrev pub IsAsked : Text → Option (List Text) → Package → Type 0
IsAsked name none q = q.name ≡ name
IsAsked name (some versions) q =
    (q.name ≡ name)
    × ((Has q.version versions ⊎ Has (q.version ++ b'-' ∷ q.iteration) versions)
        ⊎ Has (full_version q) versions)

pub removes_lem :
    (name : Text) (versions : Option (List Text)) (q : Package)
    → (removes name versions q ≡ true) ↔ IsAsked name versions q
unfolding removes
removes_lem name none q = and-any _ _ (equal_iff q.name name)
removes_lem name (some versions) q = and-true _ _ _ _ (equal_iff q.name name) (
    or_iff _ _ _ _
      (or_iff _ _ _ _ (contains_lem versions q.version)
        (contains_lem versions (q.version ++ b'-' ∷ q.iteration)))
      (contains_lem versions (full_version q)))
