-- ===== src/Cli/Output.antt =====
-- internal/cli/commands.go: what list prints.
use deb_s.Prelude.{
  ℕ, zero, suc, ◌-◌, ◌&&◌, Bool, List, [], ◌∷◌, ◌++◌, if◌then◌else◌, leb, Text, codes, has_suffix,
  join, length, Result, ok, and_then,
}
use deb_s.Apt.Package.{Package, full_version}
use deb_s.Apt.Render.{render}

-- The records, up to the first that fails.
unfoldable pub records_of : Text → List Package → Result (List Text)
unfolding render
records_of codename [] = ok []
records_of codename (pack ∷ packs) =
    and_then (render pack codename)
      λ text. and_then (records_of codename packs) λ texts. ok (text ∷ texts)

abbrev end_line : Text → Text
end_line output = if has_suffix output (codes "\n") then output else output ++ codes "\n"

abbrev larger : ℕ → ℕ → ℕ
larger m n = if leb m n then n else m

-- The width of a column.
unfoldable pub column_width : (Package → Text) → List Package → ℕ → ℕ
column_width column [] width = width
column_width column (pack ∷ packs) width =
    column_width column packs (larger width (length (column pack)))

abbrev spaces : ℕ → Text
spaces zero = []
spaces (suc n) = 32 ∷ spaces n

-- `utf8.RuneCountInString`, on UTF-8: the bytes that start a character.
unfoldable pub rune_count : Text → ℕ
rune_count [] = 0
rune_count (c ∷ cs) = let rest = rune_count cs in if leb 128 c && leb c 191 then rest else suc rest

-- `%-*s`, which counts characters, while the widths of the columns count bytes.
unfoldable pub padded : ℕ → Text → Text
unfolding rune_count
padded width t = t ++ spaces (width - rune_count t)

unfoldable pub table_rows : ℕ → ℕ → List Package → Text
unfolding full_version padded
table_rows name_width version_width [] = []
table_rows name_width version_width (pack ∷ packs) =
    padded name_width pack.name
    ++ (codes "  "
        ++ (padded version_width (full_version pack)
            ++ (codes "  "
                ++ (pack.architecture
                    ++ (codes "\n" ++ table_rows name_width version_width packs)))))

unfoldable pub list_output : Bool → Text → List Package → Result Text
unfolding records_of column_width table_rows has_suffix join full_version
list_output long codename packs =
    if long
    then and_then (records_of codename packs) (λ texts. ok (end_line (join (codes "\n") texts)))
    else ok (
        table_rows (column_width (λ (p : Package). p.name) packs 0)
          (column_width full_version packs 0) packs)
