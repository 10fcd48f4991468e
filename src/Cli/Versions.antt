-- ===== src/Cli/Versions.antt =====
-- internal/cli/flags.go: lists of values.
use deb_s.Prelude.{ℕ, ◌≡◌, ap, true, List, [], ◌∷◌, ◌++◌, if◌then◌else◌, Text}
use deb_s.Cli.Flags.{is_separator, push, fields_onto, set_list}

fields_onto-append :
    (values : List Text) (current a b : Text) (c : ℕ)
    → is_separator c ≡ true
    → fields_onto values current (a ++ c ∷ b) ≡ fields_onto (fields_onto values current a) [] b
unfolding fields_onto
fields_onto-append values current [] b c sep =
    ap
      (λ t.
        fields_onto (if t then values ++ push current [] else values)
          (if t then [] else current ++ c ∷ []) b)
      sep
fields_onto-append values current (x ∷ a) b c sep =
    fields_onto-append (if is_separator x then values ++ push current [] else values)
      (if is_separator x then [] else current ++ x ∷ []) a b c sep

-- A list flag given once with two values and a comma, space, tab or line feed between them is the
-- same as the flag given twice.
pub set_list-append :
    (a b : Text) (c : ℕ) (values : List Text)
    → is_separator c ≡ true
    → set_list (a ++ c ∷ b) values ≡ set_list b (set_list a values)
unfolding set_list
set_list-append a b c values sep = fields_onto-append values [] a b c sep
