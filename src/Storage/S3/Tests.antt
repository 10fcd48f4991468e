-- ===== src/Storage/S3/Tests.antt =====
-- internal/storage/s3.go, over a bucket in memory.
use deb_s.Prelude.{
  ℕ, ◌≤◌, ◌≡◌, refl, sym, arith, Bool, true, false, All, length, trim, ok-injective, Option, none,
  some, List, [], ◌∷◌, if◌then◌else◌, Text, codes, equal, Dict, lookup, insert, remove, ok, err,
  conflict, not_found, Bool-cases, inl, inr,
}
use deb_s.Digest.{encode_to_string}
use deb_s.Storage.Key.{join_key}
use deb_s.Storage.Types.{ObjectInfo, PutOptions}
use deb_s.Storage.Memory.{MemoryStore}
use deb_s.Storage.Memory.Etag.{trim_etag}
use deb_s.Storage.S3
use deb_s.Storage.S3.Inputs.{S3Store, when_set, head_info, settled, put_input, next_page}
use deb_s.Storage.S3.{list_pages}
use deb_s.Storage.S3.Errors.{map_s3_error}
use deb_s.Storage.S3.Api.{Client, PutInput, Listed, ListOutput}
use deb_s.Storage.S3.Bucket.{IsHeader, IsStorable, stored}
use deb_s.Storage.S3.Simulates.{view, HasKey}
use deb_s.Storage.S3.Races.{raced, put_raced, delete_if_match_raced}
use deb_s.Storage.S3.Pages.{Serves, last, then_more, all_objects, list_pages_lem}
use deb_s.Storage.S3.Requests.{
  Request, CanStore, IsSendable, done, content, get_it, head_it, put_it, delete_it, run_s3-refines,
  run_s3, run_memory, timed,
}
use deb_s.Storage.S3.Small.{coarse, shown, small_client, AnyKey, small_bucket}

abbrev store_at_repo : S3Store
store_at_repo = record { bucket = codes "b"; prefix = codes "repo"; acl = []; encryption = false }

abbrev new_only : PutOptions
new_only = record {
  content_type = codes "text/plain";
  cache_control = [];
  metadata = [];
  fail_if_exists = false;
  create_only = true;
  server_side_encryption = false;
}

IsHeader-digest : (body : Text) → IsHeader (encode_to_string (coarse.md5_sum body))
unfolding trim encode_to_string
IsHeader-digest body = elim (Bool-cases (equal body [])) [
  | inl e ↦ rw e ((refl, (refl, tt)), refl)
  | inr e ↦ rw e ((refl, (refl, tt)), refl)
]

length-digest : (body : Text) → length (encode_to_string (coarse.md5_sum body)) ≤ 2045
unfolding encode_to_string
length-digest body = elim (Bool-cases (equal body [])) [
  | inl e ↦ rw e (omega arith)
  | inr e ↦ rw e (omega arith)
]

IsHeader-type : IsHeader new_only.content_type
unfolding trim
IsHeader-type =
    ((refl, (refl, (refl, (refl, (refl, (refl, (refl, (refl, (refl, (refl, tt)))))))))), refl)

put_input-IsStorable :
    (p body : Text) (absent : Bool)
    → length body ≤ 1
    → IsStorable AnyKey (put_input store_at_repo coarse p body new_only absent)
unfolding put_input when_set equal insert trim
put_input-IsStorable p body absent short = record {
  key = tt;
  size = omega arith;
  content_type = (new_only.content_type, refl, IsHeader-type);
  cache_control = (tt, refl);
  metadata =
      (encode_to_string (coarse.md5_sum body), refl, IsHeader-digest body, length-digest body);
}

small-CanStore :
    (key t : Text)
    → length t ≤ 1
    → CanStore coarse small_client store_at_repo small_bucket key (ok t) new_only
small-CanStore key t short p body absent good read =
    put_input-IsStorable p body absent (rw (sym (ok-injective read)) short)

abbrev requests : List Request
requests =
    put_it (codes "a") (ok (codes "x")) new_only
    ∷ get_it (codes "a")
    ∷ put_it (codes "a") (ok []) new_only
    ∷ head_it (codes "/a")
    ∷ delete_it (codes "a")
    ∷ get_it (codes "a")
    ∷ []

abbrev bucket_view : Dict PutInput → MemoryStore
bucket_view = view coarse small_client small_bucket store_at_repo

abbrev timed_requests : List (ℕ × Request)
timed_requests = timed coarse small_client store_at_repo small_bucket requests []

sendable : All (IsSendable coarse small_client store_at_repo small_bucket) requests
sendable = (
  (any_key _, small-CanStore (codes "a") (codes "x") (omega arith)),
  (
    any_key _,
    (
      (any_key _, small-CanStore (codes "a") [] (omega arith)),
      (any_key _, (any_key _, (any_key _, tt))),
    ),
  ),
)
  where
    any_key : (key : Text) → HasKey coarse small_client small_bucket store_at_repo key
    any_key key p good = tt

run_s3-refines_example :
    ((run_s3 coarse small_client store_at_repo requests []).0
      ≡ (run_memory coarse false store_at_repo timed_requests (bucket_view [])).0)
    × (bucket_view (run_s3 coarse small_client store_at_repo requests []).1
        ≡ (run_memory coarse false store_at_repo timed_requests (bucket_view [])).1)
run_s3-refines_example =
    run_s3-refines coarse small_client store_at_repo small_bucket requests [] sendable

-- The last request finds nothing.
answers_lem :
    (run_s3 coarse small_client store_at_repo
      (put_it (codes "a") (ok (codes "x")) new_only
        ∷ put_it (codes "a") (ok []) new_only
        ∷ get_it (codes "a")
        ∷ delete_it (codes "a")
        ∷ get_it (codes "a")
        ∷ [])
      []).0
    ≡ done (ok tt)
      ∷ done (err (conflict (codes "a")))
      ∷ content (ok (codes "x"))
      ∷ done (ok tt)
      ∷ content (err (not_found (codes "a")))
      ∷ []
unfolding run_s3 lookup insert remove equal settled map_s3_error put_input encode_to_string
answers_lem = refl

abbrev held : PutInput
held = put_input store_at_repo coarse (codes "repo/a") (codes "x") new_only true

abbrev one_input : Dict PutInput
one_input = (codes "repo/a", held) ∷ []

a_is_valid : join_key store_at_repo.prefix (codes "a") ≡ ok (codes "repo/a")
unfolding join_key
a_is_valid = refl

a_is_there : lookup (codes "repo/a") (shown one_input) ≡ some (stored coarse false 0 held)
unfolding lookup equal
a_is_there = refl

abbrev others_put : Dict PutInput → Dict PutInput
others_put m = one_input

put_raced_example :
    ((S3.put (raced others_put small_client) store_at_repo coarse (codes "a") (ok []) new_only []).1
      ≡ one_input)
    × (lookup (codes "repo/a") (shown []) ≡ none
        → (S3.put
            (raced others_put small_client)
            store_at_repo
            coarse
            (codes "a")
            (ok [])
            new_only
            []).0
          ≡ err (conflict (codes "a")))
put_raced_example =
    put_raced coarse small_client small_bucket store_at_repo others_put [] (codes "a")
      (codes "repo/a") [] new_only a_is_valid refl (stored coarse false 0 held) a_is_there

-- Somebody empties the object.
abbrev emptied : Dict PutInput → Dict PutInput
emptied m = (codes "repo/a", record held { body = [] }) ∷ []

emptied_is_there :
    lookup (codes "repo/a") (shown (emptied one_input))
    ≡ some (stored coarse false 0 (record held { body = [] }))
unfolding lookup equal
emptied_is_there = refl

abbrev head_answer : ObjectInfo
head_answer = record (stored coarse false 0 held).info { key = codes "a" }

head_held : S3.head small_client store_at_repo (codes "a") one_input ≡ (ok head_answer, one_input)
unfolding S3.head lookup equal head_info trim_etag encode_to_string join_key put_input
head_held = refl

delete_if_match_raced_example :
    ((S3.delete_if_match small_client store_at_repo
        (codes "a")
        head_answer.etag
        (emptied one_input)).0
      ≡ (if equal (stored coarse false 0 (record held { body = [] })).info.etag head_answer.etag
          then ok tt
          else err (conflict (codes "a"))))
    × (shown
          (S3.delete_if_match small_client store_at_repo
            (codes "a")
            head_answer.etag
            (emptied one_input)).1
        ≡ (if equal (stored coarse false 0 (record held { body = [] })).info.etag head_answer.etag
            then remove (codes "repo/a") (shown (emptied one_input))
            else shown (emptied one_input)))
delete_if_match_raced_example =
    delete_if_match_raced coarse small_client small_bucket store_at_repo one_input (codes "a")
      (codes "repo/a") a_is_valid tt emptied head_answer
      (stored coarse false 0 (record held { body = [] })) head_held emptied_is_there

-- A service with two pages.
abbrev listed_at : Text → Listed
listed_at key = record {
  key = some key;
  size = some 1;
  etag = some (codes "\"e\"");
  last_modified = none;
}

abbrev first_page : ListOutput
first_page = record {
  contents = listed_at (codes "repo/a") ∷ listed_at (codes "other") ∷ [];
  is_truncated = some true;
  next_continuation_token = some (codes "t");
}

abbrev second_page : ListOutput
second_page = record {
  contents = listed_at (codes "repo/b") ∷ [];
  is_truncated = none;
  next_continuation_token = none;
}

abbrev page_at : Option Text → ListOutput
page_at none = first_page
page_at (some _) = second_page

abbrev paged_client : Client (Dict PutInput)
paged_client = record small_client { list_objects = λ prefix token m. (ok (page_at token), m) }

two_pages-Serves : Serves paged_client (codes "repo/") [] none (first_page ∷ second_page ∷ [])
unfolding next_page equal
two_pages-Serves = then_more (codes "t") refl refl (last refl refl)

list_pages_lem_example :
    list_pages paged_client store_at_repo 2 (codes "repo/") [] none []
    ≡ some (ok (all_objects (codes "repo") (first_page ∷ second_page ∷ [])), [])
list_pages_lem_example =
    list_pages_lem paged_client (codes "repo/") [] store_at_repo 2 [] none
      (first_page ∷ second_page ∷ []) two_pages-Serves (omega arith)
