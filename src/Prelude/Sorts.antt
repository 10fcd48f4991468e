-- ===== src/Prelude/Sorts.antt =====
-- `sort.Strings` and `sort.Slice` on a string key: any sort gives the list in ascending order.
use mathlib.Core.Bool.{Bool, true, false}
use mathlib.Core.List.{List, [], ◌∷◌}
use deb_s.Prelude.Tests.{◌==◌, ltb, if◌then◌else◌}
use deb_s.Prelude.Texts.{Text}

-- `a <= b` on Go strings: byte by byte, a prefix first.
unfoldable pub text_le : Text → Text → Bool
text_le [] b = true
text_le (x ∷ a) [] = false
text_le (x ∷ a) (y ∷ b) = let rest = text_le a b in if x == y then rest else ltb x y

module _ {ℓ} {A : Type ℓ} (key : A → Text) where
  unfoldable pub insert_by : A → List A → List A
  unfolding text_le
  insert_by x [] = x ∷ []
  insert_by x (y ∷ ys) = if text_le (key x) (key y) then x ∷ y ∷ ys else y ∷ insert_by x ys

  unfoldable pub sort_by : List A → List A
  unfolding insert_by
  sort_by [] = []
  sort_by (x ∷ xs) = insert_by x (sort_by xs)
