-- ===== src/Storage/S3/Pages.antt =====
-- internal/storage/s3.go: the pages of `List`.
use deb_s.Prelude.{
  ℕ, suc, zero, ◌<◌, ◌≡◌, refl, arith, Option, none, some, List, [], ◌∷◌, ◌++◌, Text, length,
  append-nil, append_assoc, ok,
}
use deb_s.Storage.Types.{ObjectInfo}
use deb_s.Storage.S3.Inputs.{S3Store, page_objects, next_page}
use deb_s.Storage.S3.{list_pages}
use deb_s.Storage.S3.Api.{Client, ListOutput}

abbrev pub all_objects : Text → List ListOutput → List ObjectInfo
all_objects prefix [] = []
all_objects prefix (page ∷ pages) = page_objects prefix page.contents ++ all_objects prefix pages

module _ {S : Type 0} (client : Client S) (prefix : Text) (s : S) where
  -- The pages with which the service answers, from a token on. A listing changes nothing.
  pub data Serves : Option Text → List ListOutput → Type 0 where
    last :
        {token : Option Text} {page : ListOutput}
        → client.list_objects prefix token s ≡ (ok page, s)
        → next_page page ≡ ok none
        → Serves token (page ∷ [])
    then_more :
        {token : Option Text} {page : ListOutput} {pages : List ListOutput} (next : Text)
        → client.list_objects prefix token s ≡ (ok page, s)
        → next_page page ≡ ok (some next)
        → Serves (some next) pages
        → Serves token (page ∷ pages)

  -- When the service answers a listing from a token with a chain of pages and the listing changes
  -- nothing, the loop of List, with as many rounds as there are pages, returns the objects it had
  -- followed by those of all pages in order.
  pub list_pages_lem :
      (s3 : S3Store) (fuel : ℕ) (objects : List ObjectInfo) (token : Option Text)
      (pages : List ListOutput)
      → Serves token pages
      → length pages < suc fuel
      → list_pages client s3 fuel prefix objects token s
        ≡ some (ok (objects ++ all_objects s3.prefix pages), s)
  unfolding list_pages
  list_pages_lem s3 fuel objects token [] h enough = elim h [ ]
  list_pages_lem s3 zero objects token (page ∷ pages) h enough = absurd (omega arith)
  list_pages_lem s3 (suc fuel) objects token (page ∷ []) (last answer end) enough =
      rw answer (rw end (rw append-nil refl))
  list_pages_lem s3 (suc fuel) objects token (page ∷ pages) (then_more next answer more h) enough =
      rw answer (
        rw more
          (rw (list_pages_lem s3 fuel _ (some next) pages h (omega arith)) (rw append_assoc refl)))
