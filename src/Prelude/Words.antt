-- ===== src/Prelude/Words.antt =====
-- More of `strings`: fields, cuts and replacements.
use mathlib.Core.Bool.{Bool, true, false, ◌&&◌}
use mathlib.Core.Option.{Option, none, some}
use mathlib.Core.List.{List, [], ◌∷◌, ◌++◌}
use Prim.Native.Nat.{ℕ}
use deb_s.Prelude.Tests.{◌==◌, if◌then◌else◌}
use deb_s.Prelude.Texts.{Text, has_prefix, is_space}

abbrev pub flush : Text → List Text → List Text
flush [] rest = rest
flush (c ∷ cs) rest = (c ∷ cs) ∷ rest

-- The fields of what is left, with the bytes of the current field read so far.
unfoldable pub fields_onto : (ℕ → Bool) → Text → Text → List Text
fields_onto f current [] = flush current []
fields_onto f current (c ∷ cs) = elim (f c) [
  | true ↦ flush current (fields_onto f [] cs)
  | false ↦ fields_onto f (current ++ c ∷ []) cs
]

-- `strings.FieldsFunc(s, f)`
unfoldable pub fields_func : (ℕ → Bool) → Text → List Text
unfolding fields_onto
fields_func f = fields_onto f []

-- `strings.Fields(s)` on ASCII.
unfoldable pub fields : Text → List Text
unfolding fields_func
fields = fields_func is_space

abbrev pub cons_before : ℕ → Option (Text × Text) → Option (Text × Text)
cons_before c none = none
cons_before c (some (before, after)) = some (c ∷ before, after)

-- The text before and behind the first such byte, where there is one.
unfoldable pub cut : ℕ → Text → Option (Text × Text)
cut sep [] = none
cut sep (c ∷ cs) = let rest = cut sep cs in if c == sep then some ([], cs) else cons_before c rest

-- The longest prefix of bytes that pass the test, and what follows it.
unfoldable pub span : (ℕ → Bool) → Text → Text × Text
span f [] = ([], [])
span f (c ∷ cs) = let rest = span f cs in if f c then (c ∷ rest.0, rest.1) else ([], c ∷ cs)

unfoldable pub all : (ℕ → Bool) → Text → Bool
all f [] = true
all f (c ∷ cs) = f c && all f cs

-- `strings.ReplaceAll(s, "\r\n", "\n")`
unfoldable pub unix_lines : Text → Text
unfolding has_prefix
unix_lines [] = []
unix_lines (c ∷ cs) =
    let rest = unix_lines cs in if c == 13 && has_prefix cs (10 ∷ []) then rest else c ∷ rest

-- `strings.Contains(s, wanted)`
unfoldable pub contains_text : Text → Text → Bool
unfolding has_prefix
contains_text [] wanted = has_prefix [] wanted
contains_text (c ∷ cs) wanted =
    let rest = contains_text cs wanted in if has_prefix (c ∷ cs) wanted then true else rest
