-- ===== src/Maintenance/Clean.antt =====
-- internal/maintenance/maintenance.go: `Clean` deletes the pool objects of a codename that no index
-- of any codename refers to.
pub mod Swept
pub mod References
pub mod Kept
use deb_s.Prelude.{
  ℕ, Bool, ◌&&◌, List, [], ◌∷◌, ◌++◌, map, keep, length, contains, if◌then◌else◌, Text, codes,
  equal, has_prefix, Result, ok, err, failed, unsafe_codename, wrapped, wrap, and_then, Exec, pure,
  lift, wrapping, ◌>>=◌,
}
use deb_s.GoPath.{slash, clean, join_path, dir, base}
use deb_s.Storage.Types.{ObjectInfo, Store}
use deb_s.Codename.{is_unsafe}
use deb_s.Storage.Key.{join_key}
use deb_s.Host.{Host}
use deb_s.Apt.Package.{Package, repository_filename}
use deb_s.Apt.Manifest.{parse_packages}
use deb_s.Apt.Release.{append_unique}
use deb_s.Maintenance.Partial.{Partial, stop, done, go_on}

pub record CleanResult : Type 0 where
  pub manifests : ℕ
  pub referenced : ℕ
  pub deleted : List Text

unfoldable pub scoped_prefix : Text → Text → Result Text
unfolding clean is_unsafe join_path
scoped_prefix root value =
    if is_unsafe (clean value)
    then err (failed unsafe_codename)
    else ok (join_path (root ∷ clean value ∷ []) ++ slash ∷ [])

-- The keys of Packages indexes.
unfoldable pub is_manifest_key : Text → Bool
unfolding equal has_prefix base dir
is_manifest_key key =
    equal (base key) (codes "Packages") && has_prefix (base (dir key)) (codes "binary-")

-- The pool key that a package of an index refers to.
unfoldable pub referenced_key : Package → Result Text
unfolding repository_filename join_key
referenced_key p =
    and_then (wrap (repository_filename p [])) λ filename. wrap (join_key [] filename)

unfoldable pub add_references : List Text → List Package → Result (List Text)
unfolding referenced_key append_unique
add_references referenced [] = ok referenced
add_references referenced (p ∷ ps) =
    and_then (referenced_key p) λ key. add_references (append_unique referenced key) ps

module _ {S : Type 0} (store : Store S) (host : Host) where
  unfoldable pub collect : List Text → List Text → Exec S (List Text)
  unfolding parse_packages add_references ◌>>=◌
  collect [] referenced = pure referenced
  collect (key ∷ keys) referenced = do
    text ← wrapping (store.get key)
    packages ← lift (wrap (parse_packages host.maintainer text))
    more ← lift (add_references referenced packages)
    collect keys more

  -- The keys of the indexes, the keys that they refer to, and the objects in the pool.
  unfoldable pub survey : Text → Exec S (List Text × List Text × List ObjectInfo)
  unfolding is_manifest_key keep collect ◌>>=◌
  survey pool_prefix = do
    objects ← wrapping (store.list (codes "dists/"))
    let keys = keep is_manifest_key (map (λ (i : ObjectInfo). i.key) objects)
    referenced ← collect keys []
    pool ← wrapping (store.list pool_prefix)
    pure (keys, referenced, pool)

  abbrev delete_one : Text → CleanResult → Partial S CleanResult
  delete_one key r s =
      let (d, s') = store.delete key s in
      elim d [
        | ok _ ↦ ((record r { deleted = r.deleted ++ key ∷ [] }, ok tt), s')
        | err e ↦ ((r, err (wrapped e)), s')
      ]

  -- The loop over the pool's objects.
  unfoldable pub sweep : List Text → List ObjectInfo → CleanResult → Partial S CleanResult
  unfolding contains
  sweep referenced [] r = done r
  sweep referenced (object ∷ rest) r =
      if contains referenced object.key
      then sweep referenced rest r
      else go_on (delete_one object.key r) (sweep referenced rest)

  abbrev nothing : CleanResult
  nothing = record { manifests = 0; referenced = 0; deleted = [] }

  abbrev sweep_surveyed : Result (List Text × List Text × List ObjectInfo) → Partial S CleanResult
  sweep_surveyed (err e) = stop nothing e
  sweep_surveyed (ok (keys, referenced, pool)) =
      sweep referenced pool
        (record { manifests = length keys; referenced = length referenced; deleted = [] })

  abbrev clean_under : Result Text → Partial S CleanResult
  clean_under (err e) s = ((nothing, err e), s)
  clean_under (ok pool_prefix) s = let (r, s') = survey pool_prefix s in sweep_surveyed r s'

  -- `Clean`
  unfoldable pub clean_pool : Text → Partial S CleanResult
  unfolding scoped_prefix survey sweep
  clean_pool codename = clean_under (scoped_prefix (codes "pool") codename)
