-- ===== src/Query/Answers.antt =====
-- internal/query/query.go: what the answers of `List`, `Show` and `Exists` say of the indexes.
use deb_s.Prelude.{
  ◌≡◌, refl, sym, true, List, [], ◌∷◌, ◌↔◌, Text, Result, ok, err, any, continue, pure, lift, Has,
  here, there, Bool-cases, inl, inr, ◌>>=◌, ok-injective,
}
use deb_s.Storage.Types.{Store}
use deb_s.Host.{Host}
use deb_s.Apt.Package.{Package}
use deb_s.Apt.Manifest.Types.{Manifest}
use deb_s.Query.{Match, is_wanted, find, matches, show, exists}

-- `Show` looks for what `Exists` tests.
any-find :
    (name version : Text) (ps : List Package)
    → (any (is_wanted name version) ps ≡ true) ↔ ((p : Package) × (find name version ps ≡ ok p))
unfolding any find
any-find name version [] = ((λ h. cc), λ (p, h). cc)
any-find name version (p ∷ ps) =
    let rest = any-find name version ps in
    elim (Bool-cases (is_wanted name version p)) [
      | inl e ↦ rw e ((λ _. (p, refl)), λ _. refl)
      | inr e ↦ rw e rest
    ]

find-Has :
    (name version : Text) (ps : List Package) (p : Package)
    → find name version ps ≡ ok p
    → Has p ps × (is_wanted name version p ≡ true)
unfolding find
find-Has name version [] p h = cc
find-Has name version (q ∷ ps) p h = elim (Bool-cases (is_wanted name version q)) [
  | inl e ↦ let same : q ≡ p = ok-injective (rw e at h) in rw (sym same) (here refl, e)
  | inr e ↦ let (k, t) = find-Has name version ps p (rw e at h) in (there k, t)
]

first_found : (m found : Match) → ok (m ∷ []) ≡ ok (found ∷ []) → m.is_found ≡ found.is_found
first_found m found h = cc

answer :
    {S : Type 0} (name version : Text) (r : Result Manifest) (s : S) (found : Match)
    → (continue r (λ m. pure (matches version m.packages (name ∷ []))) s).0 ≡ ok (found ∷ [])
    → (found.is_found ≡ true)
      ↔ ((p : Package) × ((continue r (λ m. lift (find name version m.packages)) s).0 ≡ ok p))
unfolding matches
answer name version (ok m) s found h =
    rw (sym (first_found _ found h)) (any-find name version m.packages)
answer name version (err e) s found h = cc

module _ {S : Type 0} (store : Store S) (host : Host)
    (codename component architecture name version : Text) where
  -- From one state of any store, when Exists answers for a single name, it says that the name and
  -- version are found exactly when Show returns a package for them.
  pub exists-show :
      (s : S) (found : Match)
      → (exists store host codename component architecture version (name ∷ []) s).0
        ≡ ok (found ∷ [])
      → (found.is_found ≡ true) ↔ (
          (p : Package) × ((show store host codename component architecture name version s).0
            ≡ ok p))
  unfolding exists show matches ◌>>=◌
  exists-show s found h = answer name version _ _ found h
