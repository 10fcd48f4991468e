-- ===== src/Codename.antt =====
-- The check on codenames of internal/maintenance (`scopedPrefix`) and internal/lock
-- (`checkedLockPath`).
use deb_s.Prelude.{Bool, ◌||◌, Text, codes, equal}
use deb_s.GoPath.{is_abs}
use deb_s.Storage.Key.{escapes}

-- `cleaned == "." || path.IsAbs(cleaned) || cleaned == ".." || HasPrefix(cleaned, "../")`
unfoldable pub is_unsafe : Text → Bool
unfolding equal is_abs escapes
is_unsafe cleaned = equal cleaned (codes ".") || (is_abs cleaned || escapes cleaned)
