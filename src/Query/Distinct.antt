-- ===== src/Query/Distinct.antt =====
-- internal/query/query.go: the packages of `List` have different identities.
use deb_s.Prelude.{
  ◌≡◌, refl, sym, Bool, false, List, [], ◌∷◌, ◌||◌, ◌&&◌, not, Text, equal, Result, ok, err, any,
  continue, All, Has, here, there, Bool-cases, inl, inr, ◌>>=◌, arith, ok-injective, Pairwise,
  append-Pairwise, All-append,
}
use deb_s.Storage.Types.{Store}
use deb_s.Host.{Host}
use deb_s.Apt.Package.{Package}
use deb_s.Apt.Manifest.Types.{Manifest}
use deb_s.Apt.Release.Types.{Release}
use deb_s.Query.{
  Seen, identity, same_identity, see, see_all, list_from, list, ListOptions, ListIdentity,
}

-- `q`, which is listed after `p`, is no copy of it.
abbrev pub Differs : Package → Package → Type 0
Differs p q = same_identity (identity q) (identity p) ≡ false

-- What was listed is known, and no two of it are copies.
abbrev IsKept : Seen → Type 0
IsKept (seen, packages) = All (λ q. Has (identity q) seen) packages × Pairwise Differs packages

All-known :
    (i : ListIdentity) (seen : List ListIdentity) (packages : List Package)
    → All (λ q. Has (identity q) seen) packages
    → All (λ q. Has (identity q) (i ∷ seen)) packages
All-known i seen [] h = tt
All-known i seen (p ∷ ps) h = (there h.0, All-known i seen ps h.1)

or_false : (a b : Bool) → (a || b) ≡ false → (a ≡ false) × (b ≡ false)
or_false a b h = ground arith

not_any :
    (i j : ListIdentity) (seen : List ListIdentity)
    → any (same_identity i) seen ≡ false
    → Has j seen
    → same_identity i j ≡ false
unfolding any
not_any i j [] h k = elim k [ ]
not_any i j (x ∷ seen) h (here e) = rw e (or_false _ _ h).0
not_any i j (x ∷ seen) h (there k) = not_any i j seen (or_false _ _ h).1 k

All-differ :
    (p : Package) (seen : List ListIdentity) (packages : List Package)
    → any (same_identity (identity p)) seen ≡ false
    → All (λ q. Has (identity q) seen) packages
    → All (λ q. Differs q p) packages
All-differ p seen [] e h = tt
All-differ p seen (q ∷ qs) e h =
    (not_any (identity p) (identity q) seen e h.0, All-differ p seen qs e h.1)

see-IsKept : (acc : Seen) (p : Package) → IsKept acc → IsKept (see acc p)
unfolding see
see-IsKept (seen, packages) p h = elim (Bool-cases (any (same_identity (identity p)) seen)) [
  | inl e ↦ rw e h
  | inr e ↦ rw e (
    All-append (λ q. Has (identity q) (identity p ∷ seen)) packages (p ∷ [])
        (All-known (identity p) seen packages h.0) (here refl, tt),
    append-Pairwise Differs p packages (All-differ p seen packages e h.0) h.1,
  )
]

see_all-IsKept : (acc : Seen) (ps : List Package) → IsKept acc → IsKept (see_all acc ps)
unfolding see_all
see_all-IsKept acc [] h = h
see_all-IsKept acc (p ∷ ps) h = see_all-IsKept (see acc p) ps (see-IsKept acc p h)

module _ {S : Type 0} (store : Store S) (host : Host) (o : ListOptions) where
  abbrev IsDistinct : List Text → Type 0
  IsDistinct rest =
      (acc : Seen) (s : S) (ps : List Package)
      → IsKept acc
      → (list_from store host o rest acc s).0 ≡ ok ps
      → Pairwise Differs ps

  after_manifest :
      (r : Result Manifest) (rest : List Text) (acc : Seen) (s : S) (ps : List Package)
      → IsDistinct rest
      → IsKept acc
      → (continue r (λ m. list_from store host o rest (see_all acc m.packages)) s).0 ≡ ok ps
      → Pairwise Differs ps
  after_manifest (ok m) rest acc s ps ih k h =
      ih (see_all acc m.packages) s ps (see_all-IsKept acc m.packages k) h
  after_manifest (err e) rest acc s ps ih k h = cc

  list_from-Pairwise : (architectures : List Text) → IsDistinct architectures
  unfolding list_from ◌>>=◌
  list_from-Pairwise [] acc s ps k h = rw (sym (ok-injective h)) k.1
  list_from-Pairwise (a ∷ rest) acc s ps k h =
      elim (Bool-cases (not (equal o.architecture []) && not (equal a o.architecture))) [
        | inl e ↦ list_from-Pairwise rest acc s ps k (rw e at h)
        | inr e ↦ after_manifest _ rest acc _ ps (list_from-Pairwise rest) k (rw e at h)
      ]

  after_release :
      (r : Result Release) (s : S) (ps : List Package)
      → (continue r (λ release. list_from store host o release.architectures ([], [])) s).0 ≡ ok ps
      → Pairwise Differs ps
  after_release (ok release) s ps h =
      list_from-Pairwise release.architectures ([], []) s ps (tt, tt) h
  after_release (err e) s ps h = cc

  -- When List succeeds, on any store, no package that it returns has the same name, version,
  -- architecture and filename as an earlier one of the result.
  pub list-Pairwise :
      (s : S) (ps : List Package) → (list store host o s).0 ≡ ok ps → Pairwise Differs ps
  unfolding list ◌>>=◌
  list-Pairwise s ps h = after_release _ _ ps h
