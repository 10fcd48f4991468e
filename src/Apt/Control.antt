-- ===== src/Apt/Control.antt =====
-- internal/apt/control.go: control paragraphs. `index` has the position of each field's name.
pub mod Indexed
use deb_s.Prelude.{
  ℕ, zero, suc, ◌+◌, Bool, ◌&&◌, ◌||◌, Option, none, some, List, [], ◌∷◌, ◌++◌, ◌==◌, leb,
  if◌then◌else◌, Text, codes, equal, length, Dict, lookup, insert, cut, span, all, is_digit, trim,
  is_space, trim_suffix, unix_lines, split,
}

pub record Field : Type 0 where
  pub name : Text
  pub value : Text

pub record Paragraph : Type 0 where
  pub fields : List Field
  pub index : Dict ℕ

abbrev pub empty_paragraph : Paragraph
empty_paragraph = record { fields = []; index = [] }

abbrev pub field_at : List Field → ℕ → Option Field
field_at [] i = none
field_at (f ∷ fs) zero = some f
field_at (f ∷ fs) (suc i) = field_at fs i

abbrev pub value_of : Option Field → Option Text
value_of none = none
value_of (some f) = some f.value

abbrev pub value_at : List Field → Option ℕ → Option Text
value_at fields none = none
value_at fields (some position) = value_of (field_at fields position)

-- `Get`. A position past the end, where the code would panic, is `none` here too.
unfoldable pub get : Paragraph → Text → Option Text
unfolding lookup
get p name = value_at p.fields (lookup name p.index)

-- `p.fields[position].Value = value`
abbrev pub set_value : List Field → ℕ → Text → List Field
set_value [] i value = []
set_value (f ∷ fs) zero value = record f { value = value } ∷ fs
set_value (f ∷ fs) (suc i) value = f ∷ set_value fs i value

abbrev pub set_at : Option ℕ → Text → Text → Paragraph → Paragraph
set_at (some position) name value p = record p { fields = set_value p.fields position value }
set_at none name value p = record {
  fields = p.fields ++ record { name = name; value = value } ∷ [];
  index = insert name (length p.fields) p.index;
}

unfoldable pub set : Text → Text → Paragraph → Paragraph
unfolding lookup
set name value p = set_at (lookup name p.index) name value p

-- `append(p.fields[:position], p.fields[position+1:]...)`
abbrev pub delete_at : List Field → ℕ → List Field
delete_at [] i = []
delete_at (f ∷ fs) zero = fs
delete_at (f ∷ fs) (suc i) = f ∷ delete_at fs i

unfoldable pub reindex_from : ℕ → List Field → Dict ℕ → Dict ℕ
reindex_from position [] index = index
reindex_from position (f ∷ fs) index = reindex_from (position + 1) fs (insert f.name position index)

unfoldable pub reindex : List Field → Paragraph
unfolding reindex_from
reindex fs = record { fields = fs; index = reindex_from 0 fs [] }

abbrev pub take_at : Option ℕ → Paragraph → Option Text × Paragraph
take_at none p = (none, p)
take_at (some position) p =
    (value_of (field_at p.fields position), reindex (delete_at p.fields position))

-- `Take`: the value of a field, and the paragraph without it.
unfoldable pub take : Text → Paragraph → Option Text × Paragraph
unfolding lookup reindex
take name p = take_at (lookup name p.index) p

-- `unicode.IsSpace` of a byte: ASCII white space, U+0085 and U+00A0.
abbrev pub is_space_byte : ℕ → Bool
is_space_byte c = is_space c || c == 0x85 || c == 0xa0

abbrev pub indented : Text × Text → Option (ℕ × Text)
indented ([], rest) = none
indented (c ∷ cs, []) = none
indented (c ∷ cs, d ∷ rest) = some (length (c ∷ cs), d ∷ rest)

-- The indent and the rest of a continuation line.
unfoldable pub continuation : Text → Option (ℕ × Text)
unfolding span
continuation line = indented (span is_space_byte line)

-- Bytes that may stand in a field's name, for names in ASCII.
abbrev pub is_name : ℕ → Bool
is_name c =
    c == b'-' || c == b'_' || (leb b'a' c && leb c b'z') || (leb b'A' c && leb c b'Z') || is_digit c

abbrev pub named : Option (Text × Text) → Option (Text × Text)
named none = none
named (some ([], value)) = none
named (some (c ∷ cs, value)) = if all is_name (c ∷ cs) then some (c ∷ cs, value) else none

-- The name and the value on the first line of a field.
unfoldable pub control_field : Text → Option (Text × Text)
unfolding cut all
control_field line = named (cut b':' line)

-- The variables of `ParseParagraph`.
pub record Parser : Type 0 where
  pub paragraph : Paragraph
  pub current_name : Text
  pub current_value : Text

unfoldable pub commit : Parser → Parser
unfolding set equal
commit p =
    if equal p.current_name []
    then p
    else record p { paragraph = set p.current_name p.current_value p.paragraph }

-- A continuation line: ` .` stands for an empty line.
abbrev pub continue_field : ℕ → Text → Parser → Parser
continue_field indent rest p =
    if indent == 1 && equal rest (codes ".")
    then record p { current_value = p.current_value ++ b'\n' ∷ [] }
    else record p {
      current_value =
          (if equal p.current_value [] then [] else p.current_value ++ b'\n' ∷ []) ++ rest;
    }

abbrev pub start_field : Text × Text → Parser → Parser
start_field (name, value) p = record (commit p) {
  current_name = name;
  current_value = trim is_space value;
}

abbrev pub first_line : Option (Text × Text) → Parser → Parser
first_line none p = p
first_line (some f) p = start_field f p

abbrev pub parse_as : Option (ℕ × Text) → Text → Parser → Parser
parse_as (some (indent, rest)) line p =
    if equal p.current_name [] then p else continue_field indent rest p
parse_as none line p = first_line (control_field line) p

-- One round of the loop over the lines.
unfoldable pub parse_line : Parser → Text → Parser
unfolding commit continuation control_field equal trim
parse_line p untrimmed =
    let line = trim_suffix untrimmed (13 ∷ []) in parse_as (continuation line) line p

unfoldable pub parse_lines : Parser → List Text → Parser
unfolding parse_line
parse_lines p [] = p
parse_lines p (line ∷ rest) = parse_lines (parse_line p line) rest

abbrev pub initial : Parser
initial = record { paragraph = empty_paragraph; current_name = []; current_value = [] }

-- `ParseParagraph`
unfoldable pub parse_paragraph : Text → Paragraph
unfolding parse_lines unix_lines split
parse_paragraph input = (commit (parse_lines initial (split b'\n' (unix_lines input)))).paragraph
