-- ===== src/Deb/Limits.antt =====
-- internal/deb/reader.go: the control file that `readControlTar` returns.
use deb_s.Prelude.{ℕ, ◌≤◌, ◌≡◌, true, List, Text, codes, length, Has, ok}
use deb_s.Deb.Control.{TarEntry, safe_tar_name}

module _ (limit : ℕ) (v : Text) where
  -- The control file of an archive.
  abbrev pub IsControl : TarEntry → Type 0
  IsControl entry =
      (safe_tar_name entry.name ≡ ok (codes "control"))
      × (entry.is_regular ≡ true)
      × (entry.body.bytes ≡ v)
      × (length v ≤ limit)

  abbrev pub IsIn : List TarEntry → Type 0
  IsIn entries = (entry : TarEntry) × Has entry entries × IsControl entry
