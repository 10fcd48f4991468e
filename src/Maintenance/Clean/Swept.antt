-- ===== src/Maintenance/Clean/Swept.antt =====
-- internal/maintenance/maintenance.go: which objects `Clean` deletes.
use deb_s.Prelude.{
  ◌≡◌, refl, ◌∙◌, not, List, [], ◌∷◌, ◌++◌, append_assoc, map, keep, contains, Text, codes, Result,
  ok, err, Bool-cases, inl, inr, wrapped,
}
use deb_s.Storage.Types.{ObjectInfo, Store}
use deb_s.Host.{Host}
use deb_s.Maintenance.Partial.{go_on}
use deb_s.Maintenance.Clean.{CleanResult, sweep, scoped_prefix, survey, clean_pool}

-- The keys in the pool that no index refers to.
abbrev pub unreferenced : List Text → List ObjectInfo → List Text
unreferenced referenced pool =
    keep (λ key. not (contains referenced key)) (map (λ (o : ObjectInfo). o.key) pool)

-- The deleted keys are the first of `wanted`, and all of them where there is no error.
abbrev pub Deletes : List Text → CleanResult × Result (Unit {0}) → Type 0
Deletes wanted (r, e) = (left : List Text) × (r.deleted ++ left ≡ wanted) × (e ≡ ok tt → left ≡ [])

module _ {S : Type 0} (store : Store S) (host : Host) where
  after_delete :
      (referenced : List Text) (key : Text) (rest : List ObjectInfo) (r : CleanResult)
      (d : Result (Unit {0})) (s : S)
      → ((r : CleanResult) (s : S)
          → Deletes
              (r.deleted ++ unreferenced referenced rest)
              (sweep store host referenced rest r s).0)
      → Deletes
          (r.deleted ++ key ∷ unreferenced referenced rest)
          (go_on
            (λ s'. elim d [
              | ok _ ↦ ((record r { deleted = r.deleted ++ key ∷ [] }, ok tt), s')
              | err e ↦ ((r, err (wrapped e)), s')
            ])
            (sweep store host referenced rest)
            s).0
  after_delete referenced key rest r (ok _) s ih =
      let (left, eq, all) = ih (record r { deleted = r.deleted ++ key ∷ [] }) s in
      (left, eq ∙ append_assoc r.deleted (key ∷ []) (unreferenced referenced rest), all)
  after_delete referenced key rest r (err e) s ih =
      (key ∷ unreferenced referenced rest, refl, λ h. cc)

  sweep-Deletes :
      (referenced : List Text) (pool : List ObjectInfo) (r : CleanResult) (s : S)
      → Deletes (r.deleted ++ unreferenced referenced pool) (sweep store host referenced pool r s).0
  unfolding sweep keep
  sweep-Deletes referenced [] r s = ([], refl, λ h. refl)
  sweep-Deletes referenced (object ∷ rest) r s =
      elim (Bool-cases (contains referenced object.key)) [
        | inl e ↦ rw e (sweep-Deletes referenced rest r s)
        | inr e ↦
            rw e (after_delete referenced object.key rest r _ _ (sweep-Deletes referenced rest))
      ]

  -- When Clean has read the indexes and the pool, the keys it reports as deleted are an initial
  -- part of the pool's keys that no index refers to, in the pool's order, and are all of these
  -- keys if Clean returns no error.
  pub clean_pool-Deletes :
      (codename pool_prefix : Text) (keys referenced : List Text) (pool : List ObjectInfo)
      (s s' : S)
      → scoped_prefix (codes "pool") codename ≡ ok pool_prefix
      → survey store host pool_prefix s ≡ (ok (keys, referenced, pool), s')
      → Deletes (unreferenced referenced pool) (clean_pool store host codename s).0
  unfolding clean_pool
  clean_pool-Deletes codename pool_prefix keys referenced pool s s' h k =
      rw h (rw k (sweep-Deletes referenced pool _ s'))
