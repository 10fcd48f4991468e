-- ===== src/Maintenance/Clean/Kept.antt =====
-- internal/maintenance/maintenance.go: `Clean` against the packages of the indexes.
use deb_s.Prelude.{
  ◌≡◌, refl, sym, true, false, not, List, [], ◌∷◌, map, keep, contains, equal_refl, Text, codes,
  Result, ok, err, All, All-Has, Has, here, there, Has-append, Has-keep, Result-cases, inl, inr,
  ◌>>=◌, arith,
}
use deb_s.Storage.Types.{ObjectInfo, Store}
use deb_s.Host.{Host}
use deb_s.Apt.Package.{Package}
use deb_s.Apt.Manifest.{parse_packages}
use deb_s.Maintenance.Clean.{
  CleanResult, referenced_key, collect, survey, scoped_prefix, is_manifest_key, clean_pool,
}
use deb_s.Maintenance.Clean.Swept.{unreferenced, Deletes, clean_pool-Deletes}
use deb_s.Maintenance.Clean.References.{
  IsReferenced, IsCovered, collect-IsCovered, pair-eq, failed_pair,
}

contains-Has : (key : Text) (keys : List Text) → Has key keys → contains keys key ≡ true
unfolding contains
contains-Has key [] h = elim h [ ]
contains-Has key (x ∷ xs) (here e) = rw e (rw equal_refl refl)
contains-Has key (x ∷ xs) (there h) = ground (arith, contains-Has key xs h)

referenced-unreferenced :
    (referenced : List Text) (pool : List ObjectInfo) (key : Text)
    → Has key referenced
    → ¬ Has key (unreferenced referenced pool)
referenced-unreferenced referenced pool key h k =
    let t =
      ((Has-keep (λ x. not (contains referenced x)) key (map (λ (o : ObjectInfo). o.key) pool)).0
        k).1 in
    let f : false ≡ true = rw (contains-Has key referenced h) at t in cc

Deletes-Has :
    (wanted : List Text) (q : CleanResult × Result (Unit {0})) (key : Text)
    → Deletes wanted q
    → Has key q.0.deleted
    → Has key wanted
Deletes-Has wanted (r, e) key (left, eq, all) h =
    rw (sym eq) ((Has-append key r.deleted left).1 (inl h))

-- The package refers to a key that is none of the deleted ones.
abbrev pub IsSpared : List Text → Package → Type 0
IsSpared deleted p = (key : Text) × (referenced_key p ≡ ok key) × ¬ Has key deleted

All-IsSpared :
    (referenced deleted : List Text)
    → ((key : Text) → Has key referenced → ¬ Has key deleted)
    → (ps : List Package) → All (IsReferenced referenced) ps
    → All (IsSpared deleted) ps
All-IsSpared referenced deleted f [] h = tt
All-IsSpared referenced deleted f (p ∷ ps) ((key, e, k), h) =
    ((key, e, f key k), All-IsSpared referenced deleted f ps h)

same_survey :
    {S : Type 0} {keys keys' refs refs' : List Text} {pool pool' : List ObjectInfo} {s s' : S}
    → ◌≡◌ {A = Result (List Text × List Text × List ObjectInfo) × S}
        (ok (keys, refs, pool), s)
        (ok (keys', refs', pool'), s')
    → (keys ≡ keys') × (refs ≡ refs')
same_survey h = (cc, cc)

module _ {S : Type 0} (store : Store S) (host : Host)
    (get_is_pure : (key : Text) (s : S) → (store.get key s).1 ≡ s)
    (list_is_pure : (prefix : Text) (s : S) → (store.list prefix s).1 ≡ s) where
  survey-IsCovered :
      (pool_prefix : Text) (keys referenced : List Text) (pool : List ObjectInfo) (s s' : S)
      → survey store host pool_prefix s ≡ (ok (keys, referenced, pool), s')
      → All (IsCovered store host get_is_pure referenced s) keys
  unfolding survey ◌>>=◌
  survey-IsCovered pool_prefix keys referenced pool s s' h =
      elim (Result-cases (store.list (codes "dists/") s).0) [
        | inr (e, bad) ↦
            absurd
              (failed_pair (rw (pair-eq _ (err e) s bad (list_is_pure (codes "dists/") s)) at h))
        | inl (objects, good) ↦
            let h1 = rw (pair-eq _ (ok objects) s good (list_is_pure (codes "dists/") s)) at h in
            let found = keep is_manifest_key (map (λ (o : ObjectInfo). o.key) objects) in
            let c = collect store host found [] s in
            elim (Result-cases c.0) [
              | inr (e, bad) ↦ absurd (failed_pair (rw (pair-eq c (err e) c.1 bad refl) at h1))
              | inl (refs, good') ↦
                  let eq = pair-eq c (ok refs) c.1 good' refl in
                  elim (Result-cases (store.list pool_prefix c.1).0) [
                    | inr (e, bad) ↦ absurd (
                        failed_pair (
                          rw (pair-eq _ (err e) c.1 bad (list_is_pure pool_prefix c.1)) at
                            (rw eq at h1)))
                    | inl (pool', good'') ↦
                        let h3 =
                          rw (pair-eq _ (ok pool') c.1 good'' (list_is_pure pool_prefix c.1)) at
                            (rw eq at h1) in
                        let (same_keys, same_refs) = same_survey h3 in
                        rw (sym same_keys) (
                          rw (sym same_refs)
                            (collect-IsCovered store host get_is_pure found [] refs s c.1 eq).1)
                  ]
            ]
      ]

  -- On a store whose Get and List leave the state as it is, when Clean has read the indexes and
  -- the pool, each index that it found could be read and parsed, and every package listed in it
  -- refers to a key that Clean does not report as deleted.
  pub clean_pool-IsSpared :
      (codename pool_prefix : Text) (keys referenced : List Text) (pool : List ObjectInfo)
      (s s' : S)
      → scoped_prefix (codes "pool") codename ≡ ok pool_prefix
      → survey store host pool_prefix s ≡ (ok (keys, referenced, pool), s')
      → (index : Text) → Has index keys
      → (text : Text) × (packages : List Package) × (store.get index s ≡ (ok text, s))
        × (parse_packages host.maintainer text ≡ ok packages)
        × All (IsSpared (clean_pool store host codename s).0.0.deleted) packages
  clean_pool-IsSpared codename pool_prefix keys referenced pool s s' h k index there_is =
      let (text, packages, got, parsed, refers) =
        All-Has (IsCovered store host get_is_pure referenced s) index keys
          (survey-IsCovered pool_prefix keys referenced pool s s' k) there_is in
      let deletes =
        clean_pool-Deletes store host codename pool_prefix keys referenced pool s s' h k in
      (
        text,
        packages,
        got,
        parsed,
        All-IsSpared referenced (clean_pool store host codename s).0.0.deleted
            (λ key m d.
              referenced-unreferenced referenced pool key m
                (Deletes-Has _ (clean_pool store host codename s).0 key deletes d))
            packages refers,
      )
