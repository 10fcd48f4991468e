-- ===== src/Storage/Memory.antt =====
-- internal/storage/memory.go: `MemoryStore`. The mutex makes each operation one step; `ctx` is what
-- `ctx.Err()` returns when the operation starts, and `now` is the clock's reading.
pub mod Etag
pub mod Hex
pub mod Writes
pub mod Calls
pub mod Sound
pub mod Quoted
use deb_s.Prelude.{
  ℕ, Bool, true, false, ◌||◌, ◌&&◌, not, Option, none, some, List, [], ◌∷◌, ◌++◌, if◌then◌else◌,
  Text, codes, equal, has_prefix, has_suffix, length, Dict, lookup, insert, remove, Error, Result,
  ok, err, wrap, not_found, conflict, Exec, lift, pure, raise, and_then, sort_by, ◌>>=◌, ◌>>◌,
}
use deb_s.GoPath.{slash}
use deb_s.Digest.{Codec, encode_to_string}
use deb_s.Storage.Key.{join_key, normalize_prefix, logical_key}
use deb_s.Storage.Types.{ObjectInfo, PutOptions, CopyOptions, Store}
use Etag.{trim_etag, object_md5}

pub record MemoryObject : Type 0 where
  pub content : Text
  pub info : ObjectInfo

pub record MemoryStore : Type 0 where
  pub prefix : Text
  pub objects : Dict MemoryObject

abbrev or_prefix : Text → Result Text → Text
or_prefix prefix (ok normalized) = normalized
or_prefix prefix (err _) = prefix

unfoldable pub new_memory_store : Text → MemoryStore
unfolding normalize_prefix
new_memory_store prefix = record {
  prefix = or_prefix prefix (normalize_prefix prefix);
  objects = [];
}

-- `ctx.Err()`
abbrev pub ctx_err : Option Error → Result (Unit {0})
ctx_err none = ok tt
ctx_err (some e) = err e

-- The checks on the context and the key that every operation begins with.
unfoldable pub physical_key : Option Error → Text → Text → Result Text
physical_key ctx prefix key = and_then (ctx_err ctx) λ _. join_key prefix key

abbrev pub at_key : Option Error → Text → Exec MemoryStore Text
at_key ctx key s = (physical_key ctx s.prefix key, s)

abbrev pub found {ℓ} : {A : Type ℓ} → Text → Option A → Result A
found key none = err (not_found key)
found key (some a) = ok a

-- `object, ok := s.objects[physical]`, with the error of its callers.
abbrev pub object_at : Text → Text → Exec MemoryStore MemoryObject
object_at key physical s = (found key (lookup physical s.objects), s)

unfoldable pub get : Option Error → Text → Exec MemoryStore Text
unfolding physical_key ◌>>=◌
get ctx key = do physical ← at_key ctx key; object ← object_at key physical; pure object.content

unfoldable pub head : Option Error → Text → Exec MemoryStore ObjectInfo
unfolding physical_key ◌>>=◌
head ctx key = do
  physical ← at_key ctx key
  object ← object_at key physical
  pure (record object.info { key = key })

-- `s.objects[physical] = object`
abbrev pub store_object : Text → MemoryObject → Exec MemoryStore (Unit {0})
store_object physical object s = (ok tt, record s { objects = insert physical object s.objects })

-- The object that `Put` stores.
unfoldable pub new_object : Codec → ℕ → Text → Text → PutOptions → MemoryObject
new_object c now physical content options =
    let digest = encode_to_string (c.md5_sum content) in
    record {
      content = content;
      info = record {
        key = physical;
        size = length content;
        etag = digest;
        metadata = insert (codes "md5") digest options.metadata;
        content_type = options.content_type;
        cache_control = options.cache_control;
        acl = [];
        server_side_encryption = options.server_side_encryption;
        last_modified = now;
      };
    }

-- What stands at the destination decides: the same digest ends the call with success, another one
-- with a conflict if the options refuse to overwrite; else `write` runs.
abbrev pub unless_there :
    Option MemoryObject
    → Text
    → Bool
    → Text
    → Exec MemoryStore (Unit {0})
    → Exec MemoryStore (Unit {0})
unless_there none digest exclusive key write = write
unless_there (some existing) digest exclusive key write =
    if equal (object_md5 existing.info) digest
    then pure tt
    else if exclusive
    then raise (conflict key)
    else write

abbrev pub write_object : Text → Bool → Text → Text → MemoryObject → Exec MemoryStore (Unit {0})
write_object digest exclusive key physical object s =
    unless_there (lookup physical s.objects) digest exclusive key (store_object physical object) s

unfoldable pub put :
    Codec → Option Error → ℕ → Text → Result Text → PutOptions → Exec MemoryStore (Unit {0})
unfolding physical_key new_object ◌>>=◌
put c ctx now key body options = do
  physical ← at_key ctx key
  content ← lift (wrap body)
  write_object (encode_to_string (c.md5_sum content))
      (options.fail_if_exists || options.create_only) key physical
      (new_object c now physical content options)

abbrev pub delete_object : Text → Exec MemoryStore (Unit {0})
delete_object physical s = (ok tt, record s { objects = remove physical s.objects })

unfoldable pub delete : Option Error → Text → Exec MemoryStore (Unit {0})
unfolding physical_key ◌>>=◌
delete ctx key = do physical ← at_key ctx key; delete_object physical

unfoldable pub delete_if_match : Option Error → Text → Text → Exec MemoryStore (Unit {0})
unfolding physical_key ◌>>=◌
delete_if_match ctx key etag = do
  physical ← at_key ctx key
  object ← object_at key physical
  if not (equal (trim_etag object.info.etag) (trim_etag etag))
      then raise (conflict key)
      else delete_object physical

-- The object that `Copy` stores.
unfoldable pub cloned : ℕ → Text → MemoryObject → MemoryObject
cloned now destination object = record object {
  info = record object.info { key = destination; last_modified = now };
}

-- A source ETag is asked for, and the object has another one.
unfoldable pub etag_differs : Text → MemoryObject → Bool
etag_differs wanted object =
    not (equal wanted []) && not (equal (trim_etag wanted) (trim_etag object.info.etag))

unfoldable pub copy : Option Error → ℕ → Text → Text → CopyOptions → Exec MemoryStore (Unit {0})
unfolding physical_key cloned etag_differs ◌>>=◌
copy ctx now source destination options = do
  source_physical ← at_key ctx source
  destination_physical ← at_key none destination
  object ← object_at source source_physical
  let exclusive = options.create_only || options.fail_if_exists
  let clone = cloned now destination_physical object
  if etag_differs options.source_etag object
      then raise (conflict source)
      else write_object (object_md5 object.info) exclusive destination destination_physical clone

-- The prefix of the physical keys that `List` returns.
unfoldable pub list_prefix : Text → Text → Result Text
list_prefix prefix wanted =
    if equal wanted []
    then normalize_prefix prefix
    else and_then (join_key prefix wanted)
        λ physical. ok (if has_suffix wanted (slash ∷ []) then physical ++ slash ∷ [] else physical)

abbrev pub listed_as : Option Text → MemoryObject → List ObjectInfo → List ObjectInfo
listed_as none object rest = rest
listed_as (some logical) object rest = record object.info { key = logical } ∷ rest

-- The objects under a physical prefix, by their logical keys.
unfoldable pub listed : Text → Text → Dict MemoryObject → List ObjectInfo
listed prefix physical_prefix [] = []
listed prefix physical_prefix ((physical, object) ∷ m) =
    let rest = listed prefix physical_prefix m in
    if has_prefix physical physical_prefix
    then listed_as (logical_key prefix physical) object rest
    else rest

unfoldable pub list : Option Error → Text → Exec MemoryStore (List ObjectInfo)
unfolding list_prefix listed ◌>>=◌
list ctx wanted s = (
  and_then (ctx_err ctx) (λ _. and_then (list_prefix s.prefix wanted) λ physical_prefix.
      ok (sort_by (λ (o : ObjectInfo). o.key) (listed s.prefix physical_prefix s.objects))),
  s,
)

-- `MemoryStore` as a `Store` and a `ConditionalDeleter`, in one context and at one time.
abbrev pub memory_store : Codec → Option Error → ℕ → Store MemoryStore
memory_store c ctx now = record {
  get = get ctx;
  head = head ctx;
  put = put c ctx now;
  delete = delete ctx;
  copy = copy ctx now;
  list = list ctx;
  delete_if_match = some (delete_if_match ctx);
}
