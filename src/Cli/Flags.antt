-- ===== src/Cli/Flags.antt =====
-- internal/cli/flags.go: the values of flags.
use deb_s.Prelude.{
  ℕ, Bool, true, false, not, ◌||◌, ◌==◌, List, [], ◌∷◌, ◌++◌, if◌then◌else◌, Text, codes, equal,
  contains, ℤ, Result, ok, err, failed, bad_flag,
}

-- `lockFlags`, with the timeout in nanoseconds.
pub record LockFlags : Type 0 where
  pub enabled : Bool
  pub timeout : ℤ

-- `strconv.ParseBool`
abbrev pub parse_bool : Text → Result Bool
parse_bool value =
    if contains
      (codes "1" ∷ codes "t" ∷ codes "T" ∷ codes "TRUE" ∷ codes "true" ∷ codes "True" ∷ []) value
    then ok true
    else if contains
        (codes "0" ∷ codes "f" ∷ codes "F" ∷ codes "FALSE" ∷ codes "false" ∷ codes "False" ∷ [])
        value
    then ok false
    else err (failed bad_flag)

abbrev negated : Result Bool → Result Bool
negated (ok disable) = ok (not disable)
negated (err e) = err e

-- `negatedBoolValue.Set`: the new value of the target.
unfoldable pub set_negated : Text → Result Bool
unfolding contains equal
set_negated value = negated (parse_bool value)

-- `negatedBoolValue.String`
abbrev pub show_negated : Bool → Text
show_negated target = if target then codes "false" else codes "true"

abbrev pub is_separator : ℕ → Bool
is_separator c = c == 44 || c == 32 || c == 9 || c == 10

abbrev pub push : Text → List Text → List Text
push [] parts = parts
push (c ∷ cs) parts = (c ∷ cs) ∷ parts

-- `strings.FieldsFunc`, the fields put behind others; `current` are the bytes of a field so far.
unfoldable pub fields_onto : List Text → Text → Text → List Text
fields_onto values current [] = values ++ push current []
fields_onto values current (c ∷ cs) =
    fields_onto (if is_separator c then values ++ push current [] else values)
      (if is_separator c then [] else current ++ c ∷ []) cs

-- `stringListValue.Set`
unfoldable pub set_list : Text → List Text → List Text
unfolding fields_onto
set_list value values = fields_onto values [] value

-- `optionalStringArrayValue.Set`: whether signing is enabled, and the keys.
unfoldable pub set_sign : Text → Bool × List Text → Bool × List Text
unfolding equal
set_sign value (enabled, values) =
    (true, if not (equal value (codes "default")) then values ++ value ∷ [] else values)
