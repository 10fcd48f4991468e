-- ===== src/Apt/Manifest/Changes.antt =====
-- What `Add` and `DeletePackage` do to the packages of a manifest.
use deb_s.Prelude.{
  ◌+◌, ◌≡◌, sym, ◌⊎◌, inl, inr, Bool, true, false, not, Option, List, [], ◌∷◌, ◌++◌, Text, keep,
  length, All, All-append, All-keep, Has, here, there, ok, Bool-cases, and_then-eq-ok, ◌↔◌,
  Has-keep_iff, Has-keep-not, Has-append, length-keep-not, ok-injective,
}
use deb_s.Apt.Package.{Package}
use deb_s.Apt.Manifest.Types.{Manifest}
use deb_s.Apt.Manifest.{
  check_exists, replaced, same_version, add, with_package, removes, delete_package,
}
use deb_s.Apt.Manifest.Chosen.{Replaces, replaced_lem, IsAsked, removes_lem}

-- No two packages have the same name and version.
abbrev Differs : Package → Package → Type 0
Differs p q = same_version p q ≡ false

abbrev pub IsUnique : List Package → Type 0
IsUnique [] = Unit
IsUnique (p ∷ ps) = All (λ q. same_version p q ≡ false) ps × IsUnique ps

keep-IsUnique : (t : Package → Bool) (ps : List Package) → IsUnique ps → IsUnique (keep t ps)
unfolding keep
keep-IsUnique t [] u = tt
keep-IsUnique t (p ∷ ps) u =
    let rest = keep-IsUnique t ps u.1 in
    elim (Bool-cases (t p)) [
      | inl e ↦ rw e (All-keep (Differs p) t ps u.0, rest)
      | inr e ↦ rw e rest
    ]

append-IsUnique :
    (pack : Package) (ps : List Package)
    → All (λ p. same_version p pack ≡ false) ps
    → IsUnique ps
    → IsUnique (ps ++ pack ∷ [])
append-IsUnique pack [] h u = (tt, tt)
append-IsUnique pack (p ∷ ps) h u =
    (All-append (Differs p) ps (pack ∷ []) u.0 (h.0, tt), append-IsUnique pack ps h.1 u.1)

-- What stays after the loop of `Add` has another name or version than the new package.
not_replaced-Differs :
    (pack : Package) (preserve_versions : Bool) (p : Package)
    → replaced pack preserve_versions p ≡ false
    → same_version p pack ≡ false
unfolding replaced
not_replaced-Differs pack true p h = h
not_replaced-Differs pack false p h = rw h

kept-Differ :
    (pack : Package) (preserve_versions : Bool) (ps : List Package)
    → All
        (λ p. same_version p pack ≡ false)
        (keep (λ p. not (replaced pack preserve_versions p)) ps)
unfolding keep
kept-Differ pack preserve_versions [] = tt
kept-Differ pack preserve_versions (p ∷ ps) =
    let rest = kept-Differ pack preserve_versions ps in
    elim (Bool-cases (replaced pack preserve_versions p)) [
      | inl e ↦ rw e rest
      | inr e ↦ rw e (not_replaced-Differs pack preserve_versions p e, rest)
    ]

add-eq-ok :
    (m : Manifest) (pack : Package) (preserve_versions needs_uploading : Bool) (m' : Manifest)
    → add m pack preserve_versions needs_uploading ≡ ok m'
    → m' ≡ with_package pack preserve_versions needs_uploading m
unfolding add
add-eq-ok m pack preserve_versions needs_uploading m' h =
    let (_, checked, e) = and_then-eq-ok (check_exists m pack) _ h in ok-injective (sym e)

-- A successful Add keeps a manifest free of two packages with the same name and full version.
pub add-IsUnique :
    (m : Manifest) (pack : Package) (preserve_versions needs_uploading : Bool) (m' : Manifest)
    → IsUnique m.packages
    → add m pack preserve_versions needs_uploading ≡ ok m'
    → IsUnique m'.packages
unfolding add
add-IsUnique m pack preserve_versions needs_uploading m' u h =
    rw (add-eq-ok m pack preserve_versions needs_uploading m' h) (
      append-IsUnique pack _ (kept-Differ pack preserve_versions m.packages)
        (keep-IsUnique _ m.packages u))

-- After a successful Add the manifest holds the new package and, of the old packages, exactly
-- those that it does not replace: where versions are preserved, those with another name or
-- another full version, and else those with another name.
pub Has-add :
    (m : Manifest) (pack : Package) (preserve_versions needs_uploading : Bool) (m' : Manifest)
    → add m pack preserve_versions needs_uploading ≡ ok m'
    → (q : Package)
    → Has q m'.packages ↔ ((Has q m.packages × (¬ Replaces pack preserve_versions q)) ⊎ (q ≡ pack))
Has-add m pack preserve_versions needs_uploading m' h q =
    rw (add-eq-ok m pack preserve_versions needs_uploading m' h) (forth, back)
  where
    stays : Package → Bool
    stays p = not (replaced pack preserve_versions p)

    old : List Package
    old = keep stays m.packages

    kept : Has q old ↔ (Has q m.packages × (¬ Replaces pack preserve_versions q))
    kept = Has-keep-not _ q m.packages _ (replaced_lem pack preserve_versions q)

    sort_out :
        Has q old ⊎ Has q (pack ∷ [])
        → (Has q m.packages × (¬ Replaces pack preserve_versions q)) ⊎ (q ≡ pack)
    sort_out (inl k) = inl (kept.0 k)
    sort_out (inr (here e)) = inr e
    sort_out (inr (there k)) = elim k [ ]

    forth :
        Has q (old ++ pack ∷ [])
        → (Has q m.packages × (¬ Replaces pack preserve_versions q)) ⊎ (q ≡ pack)
    forth k = sort_out ((Has-append q old (pack ∷ [])).0 k)

    back :
        (Has q m.packages × (¬ Replaces pack preserve_versions q)) ⊎ (q ≡ pack)
        → Has q (old ++ pack ∷ [])
    back (inl k) = (Has-append q old (pack ∷ [])).1 (inl (kept.1 k))
    back (inr e) = (Has-append q old (pack ∷ [])).1 (inr (here e))

-- DeletePackage returns exactly the packages of the manifest that have the name and, where
-- versions are given, whose upstream version, version with iteration, or full version is one of
-- them; it keeps exactly the others, and the numbers of both add up.
pub delete_package_lem :
    (m : Manifest) (name : Text) (versions : Option (List Text)) (q : Package)
    → (Has q (delete_package m name versions).1 ↔ (Has q m.packages × IsAsked name versions q))
      × (Has q (delete_package m name versions).0.packages
          ↔ (Has q m.packages × (¬ IsAsked name versions q)))
      × (length (delete_package m name versions).1
            + length (delete_package m name versions).0.packages
          ≡ length m.packages)
unfolding delete_package
delete_package_lem m name versions q = (
  Has-keep_iff _ q m.packages _ (removes_lem name versions q),
  Has-keep-not _ q m.packages _ (removes_lem name versions q),
  length-keep-not (removes name versions) m.packages,
)
