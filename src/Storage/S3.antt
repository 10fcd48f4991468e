-- ===== src/Storage/S3.antt =====
-- internal/storage/s3.go: `S3Store`, over the client of the SDK. `path_escape` is `url.PathEscape`.
-- A listing takes its pages on fuel.
pub mod Api
pub mod Inputs
pub mod Errors
pub mod Setup
pub mod Bucket
pub mod Simulates
pub mod Writes
pub mod Requests
pub mod Races
pub mod Pages
mod Small
mod Tests
use deb_s.Prelude.{
  ◌>>=◌, ◌>>◌, ℕ, zero, suc, ◌&&◌, not, Option, none, some, List, [], ◌++◌, if◌then◌else◌, Text,
  equal, Result, ok, err, wrap, wrapped, conflict, Exec, pure, raise, lift, caught,
}
use deb_s.Digest.{Codec, encode_to_string}
use deb_s.Storage.Key.{join_key}
use deb_s.Storage.Types.{ObjectInfo, PutOptions, CopyOptions}
use deb_s.Storage.Memory.Etag.{trim_etag}
use Api.{Client, ListOutput}
use Errors.{mapping}
use Inputs.{
  S3Store, head_info, put_input, copy_input, settled, is_absent, copy_settled, listed_prefix,
  page_objects, next_page,
}

module _ {S : Type 0} (client : Client S) (s3 : S3Store) where
  unfoldable pub get : Text → Exec S Text
  unfolding join_key ◌>>=◌
  get key = do
    physical ← lift (join_key s3.prefix key)
    body ← mapping key (client.get_object physical)
    lift (wrap body)

  unfoldable pub head : Text → Exec S ObjectInfo
  unfolding join_key head_info ◌>>=◌
  head key = do
    physical ← lift (join_key s3.prefix key)
    output ← mapping key (client.head_object physical)
    pure (head_info key output)

  abbrev unless_settled : Option (Result (Unit {0})) → Exec S (Unit {0}) → Exec S (Unit {0})
  unless_settled none rest = rest
  unless_settled (some r) rest = lift r

  unfoldable pub put : Codec → Text → Result Text → PutOptions → Exec S (Unit {0})
  unfolding join_key ◌>>=◌
  put c key body options = do
    physical ← lift (join_key s3.prefix key)
    content ← lift (wrap body)
    existing ← caught (head key)
    unless_settled (settled options key (encode_to_string (c.md5_sum content)) existing) (
        mapping key
          (client.put_object (put_input s3 c physical content options (is_absent existing))))

  unfoldable pub delete : Text → Exec S (Unit {0})
  unfolding join_key ◌>>=◌
  delete key = do
    physical ← lift (join_key s3.prefix key)
    mapping key (client.delete_object physical none)

  unfoldable pub delete_if_match : Text → Text → Exec S (Unit {0})
  unfolding join_key trim_etag ◌>>=◌
  delete_if_match key etag = do
    physical ← lift (join_key s3.prefix key)
    mapping key (client.delete_object physical (some (trim_etag etag)))

  unfoldable pub copy : (Text → Text) → Text → Text → CopyOptions → Exec S (Unit {0})
  unfolding join_key equal ◌>>=◌
  copy path_escape source destination options = do
    source_physical ← lift (join_key s3.prefix source)
    destination_physical ← lift (join_key s3.prefix destination)
    info ← head source
    if not (equal options.source_etag [])
          && not (equal (trim_etag options.source_etag) (trim_etag info.etag))
        then raise (conflict source)
        else (do
          there ← caught (head destination)
          unless_settled (copy_settled options destination info there) (
              mapping destination (
                client.copy_object (
                  copy_input s3 path_escape source_physical destination_physical options
                    (is_absent there)))))

  abbrev listing_failed : {A : Type 0} → Exec S A → Exec S A
  listing_failed m s = let (r, s') = m s in (wrap r, s')

  abbrev more :
      List ObjectInfo
      → Result (Option Text)
      → (Text → S → Option (Result (List ObjectInfo) × S))
      → S
      → Option (Result (List ObjectInfo) × S)
  more objects (err e) rest s = some (err e, s)
  more objects (ok none) rest s = some (ok objects, s)
  more objects (ok (some token)) rest s = rest token s

  abbrev after_page :
      List ObjectInfo
      → Result ListOutput × S
      → (List ObjectInfo → Text → S → Option (Result (List ObjectInfo) × S))
      → Option (Result (List ObjectInfo) × S)
  after_page objects (err e, s) rest = some (err (wrapped e), s)
  after_page objects (ok output, s) rest =
      more (objects ++ page_objects s3.prefix output.contents) (next_page output)
        (rest (objects ++ page_objects s3.prefix output.contents)) s

  -- The loop over the pages; `none` means that the fuel ran out.
  unfoldable pub list_pages :
      ℕ → Text → List ObjectInfo → Option Text → S → Option (Result (List ObjectInfo) × S)
  unfolding page_objects next_page
  list_pages zero prefix objects token s = none
  list_pages (suc fuel) prefix objects token s =
      after_page objects (client.list_objects prefix token s)
        (λ objects' token'. list_pages fuel prefix objects' (some token'))

  abbrev list_under : ℕ → Result Text → S → Option (Result (List ObjectInfo) × S)
  list_under fuel (err e) s = some (err e, s)
  list_under fuel (ok prefix) s = list_pages fuel prefix [] none s

  -- `List`
  unfoldable pub list : ℕ → Text → S → Option (Result (List ObjectInfo) × S)
  unfolding listed_prefix list_pages
  list fuel wanted = list_under fuel (listed_prefix s3.prefix wanted)
