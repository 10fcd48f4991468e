-- ===== src/Storage/Tests.antt =====
-- Runs of the in-memory store of internal/storage.
use deb_s.Prelude.{
  ◌≡◌, refl, arith, true, false, none, some, [], ◌∷◌, codes, ok, err, lookup, insert, remove,
  if◌then◌else◌, equal, conflict,
}
use deb_s.Samples.{codec}
use deb_s.Digest.{encode_to_string}
use deb_s.Storage.Key.{join_key}
use deb_s.Storage.Types.{PutOptions}
use deb_s.Storage.Memory.{
  MemoryStore, MemoryObject, new_memory_store, new_object, get, put, delete, delete_if_match,
}
use deb_s.Storage.Memory.Etag.{object_md5}
use deb_s.Storage.Memory.Hex.{IsMd5}
use deb_s.Storage.Memory.Writes.{Distinguishes, get-put, put_exclusive, lookup-delete}
use deb_s.Storage.Memory.Quoted.{in_quotes, delete_if_match-digest}
use deb_s.Storage.Memory.Calls.{put_call, perform, perform-err}
use deb_s.Storage.Memory.Sound.{
  IsSound, new_object-IsSound, AllSound, AllSound-new_memory_store, perform-AllSound,
}

codec-IsMd5 : IsMd5 codec
codec-IsMd5 content h = cc

abbrev plain : PutOptions
plain = record {
  content_type = [];
  cache_control = [];
  metadata = [];
  fail_if_exists = false;
  create_only = false;
  server_side_encryption = false;
}

abbrev careful : PutOptions
careful = record plain { create_only = true }

abbrev lock_body : MemoryObject
lock_body = new_object codec 1 (codes "repo/b") (codes "hi") plain

abbrev one_object : MemoryStore
one_object = record { prefix = codes "repo"; objects = (codes "repo/b", lock_body) ∷ [] }

a_is_valid : join_key one_object.prefix (codes "/x/../a") ≡ ok (codes "repo/a")
unfolding join_key
a_is_valid = refl

b_is_valid : join_key one_object.prefix (codes "b") ≡ ok (codes "repo/b")
unfolding join_key
b_is_valid = refl

b_is_there : lookup (codes "repo/b") one_object.objects ≡ some lock_body
unfolding lookup equal
b_is_there = refl

only_hi : Distinguishes codec one_object (codes "hi")
unfolding lookup new_object
only_hi p o there same = ground arith

put_hi : (put codec none 2 (codes "/x/../a") (ok (codes "hi")) plain one_object).0 ≡ ok tt
unfolding put lookup new_object join_key
put_hi = refl

get-put_example :
    (get none
      (codes "/x/../a")
      (put codec none 2 (codes "/x/../a") (ok (codes "hi")) plain one_object).1).0
    ≡ ok (codes "hi")
get-put_example =
    get-put one_object (codes "/x/../a") (codes "repo/a") a_is_valid codec 2 (codes "hi") plain
      only_hi put_hi

put_exclusive_example :
    lookup
      (codes "repo/b")
      (put codec none 2 (codes "b") (ok (codes "other")) careful one_object).1.objects
    ≡ some lock_body
put_exclusive_example =
    put_exclusive one_object (codes "b") (codes "repo/b") b_is_valid codec 2 (codes "other") careful
      (codes "repo/b") lock_body refl b_is_there

lookup-delete_example : lookup (codes "repo/b") (delete none (codes "b") one_object).1.objects ≡ (
    if equal (codes "repo/b") (codes "repo/b")
    then none
    else lookup (codes "repo/b") one_object.objects)
lookup-delete_example =
    lookup-delete one_object (codes "b") (codes "repo/b") b_is_valid (codes "repo/b")

lock_body-IsSound : IsSound codec (codes "repo/b") lock_body
lock_body-IsSound = new_object-IsSound codec codec-IsMd5 1 (codes "repo/b") (codes "hi") plain

delete_if_match-digest_example :
    (delete_if_match none (codes "b") (encode_to_string (codec.md5_sum (codes "hi"))) one_object ≡ (
      if equal
        (encode_to_string (codec.md5_sum (codes "hi")))
        (encode_to_string (codec.md5_sum (codes "hi")))
      then (ok tt, record one_object { objects = remove (codes "repo/b") one_object.objects })
      else (err (conflict (codes "b")), one_object)))
    × (delete_if_match none
          (codes "b")
          (in_quotes (encode_to_string (codec.md5_sum (codes "hi"))))
          one_object
        ≡ (if equal
              (encode_to_string (codec.md5_sum (codes "hi")))
              (encode_to_string (codec.md5_sum (codes "hi")))
            then (ok tt, record one_object { objects = remove (codes "repo/b") one_object.objects })
            else (err (conflict (codes "b")), one_object)))
unfolding new_object
delete_if_match-digest_example =
    delete_if_match-digest codec one_object (codes "b") (codes "repo/b") b_is_valid lock_body
      b_is_there lock_body-IsSound (codes "hi")

put_fails :
    (perform codec (put_call none 2 (codes "b") (ok (codes "other")) careful) one_object).0
    ≡ err (conflict (codes "b"))
unfolding perform put lookup new_object object_md5 encode_to_string join_key insert
put_fails = refl

perform-err_example :
    (perform codec (put_call none 2 (codes "b") (ok (codes "other")) careful) one_object).1
    ≡ one_object
perform-err_example =
    perform-err codec (put_call none 2 (codes "b") (ok (codes "other")) careful) one_object
      (conflict (codes "b")) put_fails

perform-AllSound_example :
    AllSound codec
      (perform codec
        (put_call none 2 (codes "b") (ok (codes "hi")) careful)
        (new_memory_store (codes "/r/"))).1
perform-AllSound_example =
    perform-AllSound codec codec-IsMd5 (put_call none 2 (codes "b") (ok (codes "hi")) careful)
      (new_memory_store (codes "/r/")) (AllSound-new_memory_store codec (codes "/r/"))
