-- ===== src/Storage/Memory/Etag.antt =====
-- internal/storage/memory.go: `trimETag` and `objectMD5`.
use deb_s.Prelude.{none, some, Option, [], ◌∷◌, ◌==◌, Text, codes, trim, is_space, to_lower, lookup}
use deb_s.Storage.Types.{ObjectInfo}

unfoldable pub trim_etag : Text → Text
unfolding trim
trim_etag etag = trim (λ c. c == b'"') (trim is_space etag)

abbrev pub digest_or : Option Text → Text → Text
digest_or none etag = etag
digest_or (some []) etag = etag
digest_or (some (c ∷ cs)) etag = c ∷ cs

-- The digest in the metadata, and the ETag where there is none.
unfoldable pub object_md5 : ObjectInfo → Text
unfolding to_lower trim_etag lookup
object_md5 info = to_lower (digest_or (lookup (codes "md5") info.metadata) (trim_etag info.etag))
