-- ===== src/Storage/Key.antt =====
-- internal/storage/store.go: how a logical key and the configured prefix give a physical key.
use deb_s.Prelude.{
  ℕ, ◌≡◌, refl, Bool, ◌||◌, Option, none, some, [], ◌∷◌, ◌++◌, ◌==◌, if◌then◌else◌, Text, codes,
  equal, has_prefix, trim_prefix, trim, contains_byte, Result, ok, err, failed, empty_key,
  key_backslash, key_escapes, prefix_backslash, prefix_escapes, and_then,
}
use deb_s.GoPath.{slash, clean, join_path}

abbrev pub backslash : ℕ
backslash = b'\\'

-- `cleaned == ".." || strings.HasPrefix(cleaned, "../")`
unfoldable pub escapes : Text → Bool
unfolding equal has_prefix
escapes cleaned = equal cleaned (codes "..") || has_prefix cleaned (codes "../")

unfoldable pub trim_slashes : Text → Text
unfolding trim
trim_slashes = trim (λ c. c == slash)

unfoldable pub normalize_prefix : Text → Result Text
unfolding equal contains_byte escapes clean trim_slashes
normalize_prefix prefix =
    let p = trim_slashes prefix in
    if equal p []
    then ok []
    else if contains_byte p backslash
    then err (failed prefix_backslash)
    else if escapes (clean p)
    then err (failed prefix_escapes)
    else ok (clean p)

-- The prefix in front of a cleaned key.
unfoldable pub under : Text → Text → Text
unfolding equal join_path
under prefix cleaned = if equal prefix [] then cleaned else join_path (prefix ∷ cleaned ∷ [])

-- The checks on the key, after its leading slash is taken off.
unfoldable pub check_key : Text → Result Text
unfolding equal contains_byte clean escapes
check_key key =
    if equal key [] || equal key (codes ".")
    then err (failed empty_key)
    else if contains_byte key backslash
    then err (failed key_backslash)
    else if escapes (clean key)
    then err (failed key_escapes)
    else ok (clean key)

unfoldable pub join_key : Text → Text → Result Text
unfolding normalize_prefix check_key under trim_prefix
join_key prefix key =
    and_then (normalize_prefix prefix)
      λ p. and_then (check_key (trim_prefix key (slash ∷ []))) λ cleaned. ok (under p cleaned)

unfoldable pub logical_key : Text → Text → Option Text
unfolding equal has_prefix trim_prefix trim_slashes
logical_key prefix physical_key =
    let p = trim_slashes prefix in
    let want = p ++ slash ∷ [] in
    if equal p []
    then some physical_key
    else if has_prefix physical_key want
    then some (trim_prefix physical_key want)
    else none

join_key_tests :
    (join_key (codes "/a/b/") (codes "/x//y/../z") ≡ ok (codes "a/b/x/z"))
    × (join_key (codes "a") (codes "../x") ≡ err (failed key_escapes))
    × (join_key [] (codes "./") ≡ ok (codes "."))
    × (join_key (codes "p/..") (codes "x") ≡ ok (codes "x"))
unfolding join_key
join_key_tests = (refl, refl, refl, refl)
