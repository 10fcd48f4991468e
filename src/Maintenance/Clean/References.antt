-- ===== src/Maintenance/Clean/References.antt =====
-- internal/maintenance/maintenance.go: the references that `Clean` collects.
use deb_s.Prelude.{
  ◌≡◌, refl, sym, true, List, [], ◌∷◌, contains, equal, equal_iff, Text, Error, Result, ok, err,
  All, Has, here, there, Has-append, Bool-cases, Result-cases, inl, inr, and_then-eq-ok,
  ok-injective, ◌>>=◌,
}
use deb_s.Storage.Types.{Store}
use deb_s.Host.{Host}
use deb_s.Apt.Package.{Package}
use deb_s.Apt.Manifest.{parse_packages}
use deb_s.Apt.Release.{append_unique}
use deb_s.Maintenance.Clean.{referenced_key, add_references, collect}

-- The key that the package refers to is among the keys.
abbrev pub IsReferenced : List Text → Package → Type 0
IsReferenced referenced p = (key : Text) × (referenced_key p ≡ ok key) × Has key referenced

-- Every key of the one list is in the other.
abbrev pub Within : List Text → List Text → Type 0
Within xs ys = (key : Text) → Has key xs → Has key ys

Has-contains : (key : Text) (keys : List Text) → contains keys key ≡ true → Has key keys
unfolding contains
Has-contains key [] h = cc
Has-contains key (x ∷ xs) h = elim (Bool-cases (equal x key)) [
  | inl e ↦ here (sym ((equal_iff x key).0 e))
  | inr e ↦ there (Has-contains key xs (rw e at h))
]

append_unique-Within : (keys : List Text) (key : Text) → Within keys (append_unique keys key)
unfolding append_unique
append_unique-Within keys key k h = elim (Bool-cases (contains keys key)) [
  | inl e ↦ rw e h
  | inr e ↦ rw e ((Has-append k keys (key ∷ [])).1 (inl h))
]

append_unique-Has : (keys : List Text) (key : Text) → Has key (append_unique keys key)
unfolding append_unique
append_unique-Has keys key = elim (Bool-cases (contains keys key)) [
  | inl e ↦ rw e (Has-contains key keys e)
  | inr e ↦ rw e ((Has-append key keys (key ∷ [])).1 (inr (here refl)))
]

All-IsReferenced :
    (xs ys : List Text)
    → Within xs ys
    → (ps : List Package) → All (IsReferenced xs) ps
    → All (IsReferenced ys) ps
All-IsReferenced xs ys w [] h = tt
All-IsReferenced xs ys w (p ∷ ps) ((key, e, k), h) =
    ((key, e, w key k), All-IsReferenced xs ys w ps h)

add_references-IsReferenced :
    (ps : List Package) (xs ys : List Text)
    → add_references xs ps ≡ ok ys
    → Within xs ys × All (IsReferenced ys) ps
unfolding add_references
add_references-IsReferenced [] xs ys h = (rw (sym (ok-injective h)) (λ key k. k), tt)
add_references-IsReferenced (p ∷ ps) xs ys h =
    let (key, e, h') = and_then-eq-ok (referenced_key p) _ h in
    let (w, all) = add_references-IsReferenced ps (append_unique xs key) ys h' in
    (
      (λ k m. w k (append_unique-Within xs key k m)),
      ((key, e, w key (append_unique-Has xs key)), all),
    )

pub failed_pair :
    {A B : Type 0} {e : Error} {a : A} {s s' : B} → ◌≡◌ {A = Result A × B} (err e, s) (ok a, s') → ⊥
failed_pair h = cc

pub pair-eq : {A B : Type 0} (r : A × B) (a : A) (b : B) → r.0 ≡ a → r.1 ≡ b → r ≡ (a, b)
pair-eq (x, y) a b e f = cc

module _ {S : Type 0} (store : Store S) (host : Host)
    (get_is_pure : (key : Text) (s : S) → (store.get key s).1 ≡ s) where
  -- The index could be read and parsed, and what its packages refer to is among the keys.
  abbrev pub IsCovered : List Text → S → Text → Type 0
  IsCovered referenced s index =
      (text : Text) × (packages : List Package) × (store.get index s ≡ (ok text, s))
      × (parse_packages host.maintainer text ≡ ok packages)
      × All (IsReferenced referenced) packages

  pub collect-IsCovered :
      (keys acc referenced : List Text) (s s' : S)
      → collect store host keys acc s ≡ (ok referenced, s')
      → Within acc referenced × All (IsCovered referenced s) keys × (s' ≡ s)
  unfolding collect ◌>>=◌
  collect-IsCovered [] acc referenced s s' h =
      let same : acc ≡ referenced = cc in (rw (sym same) (λ key k. k), tt, cc)
  collect-IsCovered (index ∷ keys) acc referenced s s' h =
      elim (Result-cases (store.get index s).0) [
        | inr (e, bad) ↦
            let eq = pair-eq (store.get index s) (err e) s bad (get_is_pure index s) in
            absurd (failed_pair (rw eq at h))
        | inl (text, good) ↦
            let eq = pair-eq (store.get index s) (ok text) s good (get_is_pure index s) in
            let h1 = rw eq at h in
            elim (Result-cases (parse_packages host.maintainer text)) [
              | inr (e, bad) ↦ absurd (failed_pair (rw bad at h1))
              | inl (packages, parsed) ↦
                  let h2 = rw parsed at h1 in
                  elim (Result-cases (add_references acc packages)) [
                    | inr (e, bad) ↦ absurd (failed_pair (rw bad at h2))
                    | inl (more, added) ↦
                        let (w, all, same) =
                          collect-IsCovered keys more referenced s s' (rw added at h2) in
                        let (w', covered) = add_references-IsReferenced packages acc more added in
                        (
                          (λ k m. w k (w' k m)),
                          (
                            (
                              text,
                              packages,
                              eq,
                              parsed,
                              All-IsReferenced more referenced w packages covered,
                            ),
                            all,
                          ),
                          same,
                        )
                  ]
            ]
      ]
