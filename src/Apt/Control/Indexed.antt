-- ===== src/Apt/Control/Indexed.antt =====
-- internal/apt/control.go: the index of a paragraph against its fields.
use deb_s.Prelude.{
  ℕ, zero, suc, ◌≡◌, ◌≢◌, refl, sym, ap, ◌∙◌, Bool, true, false, ◌&&◌, ◌==◌, Option, none, some,
  List, [], ◌∷◌, ◌++◌, Text, codes, length, equal, equal_iff, equal_refl, lookup, insert,
  lookup-insert, Option-cases, Bool-cases, inl, inr, if◌then◌else◌, split, unix_lines, trim_suffix,
}
use deb_s.Apt.Control.{
  Field, Paragraph, empty_paragraph, field_at, value_of, value_at, get, set_value, set_at, set,
  Parser, commit, continue_field, first_line, parse_as, parse_line, parse_lines, initial,
  parse_paragraph, continuation, control_field,
}

abbrev pub name_of : Option Field → Option Text
name_of none = none
name_of (some f) = some f.name

-- Every indexed name is the name of the field at its position.
abbrev pub IsIndexed : Paragraph → Type 0
IsIndexed p =
    (n : Text) (i : ℕ) → lookup n p.index ≡ some i → name_of (field_at p.fields i) ≡ some n

field_at-append : (fs : List Field) (f : Field) → field_at (fs ++ f ∷ []) (length fs) ≡ some f
field_at-append [] f = refl
field_at-append (g ∷ fs) f = field_at-append fs f

field_at_before :
    (fs ys : List Field) (i : ℕ) (n : Text)
    → name_of (field_at fs i) ≡ some n
    → field_at (fs ++ ys) i ≡ field_at fs i
field_at_before [] ys i n h = cc
field_at_before (f ∷ fs) ys zero n h = refl
field_at_before (f ∷ fs) ys (suc i) n h = field_at_before fs ys i n h

name_of-set_value :
    (fs : List Field) (i j : ℕ) (v : Text)
    → name_of (field_at (set_value fs i v) j) ≡ name_of (field_at fs j)
name_of-set_value [] i j v = refl
name_of-set_value (f ∷ fs) zero zero v = refl
name_of-set_value (f ∷ fs) zero (suc j) v = refl
name_of-set_value (f ∷ fs) (suc i) zero v = refl
name_of-set_value (f ∷ fs) (suc i) (suc j) v = name_of-set_value fs i j v

value_of-set_value :
    (fs : List Field) (i : ℕ) (n v : Text)
    → name_of (field_at fs i) ≡ some n
    → value_of (field_at (set_value fs i v) i) ≡ some v
value_of-set_value [] i n v h = cc
value_of-set_value (f ∷ fs) zero n v h = refl
value_of-set_value (f ∷ fs) (suc i) n v h = value_of-set_value fs i n v h

value_of_others :
    (fs : List Field) (i j : ℕ) (v : Text)
    → i ≢ j
    → value_of (field_at (set_value fs i v) j) ≡ value_of (field_at fs j)
value_of_others [] i j v h = refl
value_of_others (f ∷ fs) zero zero v h = absurd (h refl)
value_of_others (f ∷ fs) zero (suc j) v h = refl
value_of_others (f ∷ fs) (suc i) zero v h = refl
value_of_others (f ∷ fs) (suc i) (suc j) v h = value_of_others fs i j v (λ e. h (ap suc e))

some-injective : {a b : Text} → some a ≡ some b → a ≡ b
some-injective h = cc

false-true : ◌≡◌ {A = Bool} false true → ⊥
false-true h = cc

module _ (p : Paragraph) (indexed : IsIndexed p) (name value : Text) where
  added-IsIndexed : IsIndexed (set_at none name value p)
  added-IsIndexed n i h = elim (Bool-cases (equal name n)) [
    | inl e ↦
        let at : lookup n (insert name (length p.fields) p.index) ≡ some (length p.fields) =
          lookup-insert name n (length p.fields) p.index ∙ rw e refl in
        let here : i ≡ length p.fields = cc in
        rw here (
          rw (field_at-append p.fields (record { name = name; value = value }))
            (ap some ((equal_iff name n).0 e)))
    | inr e ↦
        let at : lookup n p.index ≡ some i =
          sym (lookup-insert name n (length p.fields) p.index ∙ rw e refl) ∙ h in
        rw (field_at_before p.fields _ i n (indexed n i at)) (indexed n i at)
  ]

  set-IsIndexed : IsIndexed (set name value p)
  unfolding set
  set-IsIndexed = elim (Option-cases (lookup name p.index)) [
    | inl e ↦ rw e added-IsIndexed
    | inr (i, e) ↦ rw e (λ n j h. name_of-set_value p.fields i j value ∙ indexed n j h)
  ]

  get-set_same : get (set name value p) name ≡ some value
  unfolding set get
  get-set_same = elim (Option-cases (lookup name p.index)) [
    | inl e ↦ rw e (
        rw (lookup-insert name name (length p.fields) p.index)
          (rw equal_refl (rw field_at-append refl)))
    | inr (i, e) ↦ rw e (rw e (value_of-set_value p.fields i name value (indexed name i e)))
  ]

  module _ (q : Text) (other : equal name q ≡ false) where
    apart : (i j : ℕ) → lookup name p.index ≡ some i → lookup q p.index ≡ some j → i ≢ j
    apart i j e f same =
        let at_i : name_of (field_at p.fields i) ≡ some q = rw same (indexed q j f) in
        let names : name ≡ q = some-injective (sym (indexed name i e) ∙ at_i) in
        false-true (sym other ∙ (equal_iff name q).1 names)

    value_at_kept :
        (found : Option ℕ)
        → lookup q p.index ≡ found
        → value_at (p.fields ++ record { name = name; value = value } ∷ []) found
          ≡ value_at p.fields found
    value_at_kept none f = refl
    value_at_kept (some j) f = ap value_of (field_at_before p.fields _ j q (indexed q j f))

    value_at_set :
        (i : ℕ)
        → lookup name p.index ≡ some i
        → (found : Option ℕ) → lookup q p.index ≡ found
        → value_at (set_value p.fields i value) found ≡ value_at p.fields found
    value_at_set i e none f = refl
    value_at_set i e (some j) f = value_of_others p.fields i j value (apart i j e f)

    get-set_other : get (set name value p) q ≡ get p q
    unfolding set get
    get-set_other = elim (Option-cases (lookup name p.index)) [
      | inl e ↦
          rw e
            (rw (lookup-insert name q (length p.fields) p.index) (rw other (value_at_kept _ refl)))
      | inr (i, e) ↦ rw e (value_at_set i e _ refl)
    ]

  -- In a paragraph whose index agrees with its fields, after a field is set, its name gives the
  -- new value and every other name gives what it gave before.
  pub get-set :
      (q : Text) → get (set name value p) q ≡ (if equal name q then some value else get p q)
  get-set q = elim (Bool-cases (equal name q)) [
    | inl e ↦ rw e (rw⁻¹ ((equal_iff name q).0 e) get-set_same)
    | inr e ↦ rw e (get-set_other q e)
  ]

if-IsIndexed :
    (b : Bool) (p q : Parser)
    → IsIndexed p.paragraph
    → IsIndexed q.paragraph
    → IsIndexed (if b then p else q).paragraph
if-IsIndexed true p q h k = h
if-IsIndexed false p q h k = k

empty-IsIndexed : IsIndexed empty_paragraph
unfolding lookup
empty-IsIndexed n i h = cc

commit-IsIndexed : (p : Parser) → IsIndexed p.paragraph → IsIndexed (commit p).paragraph
unfolding commit
commit-IsIndexed p h =
    if-IsIndexed (equal p.current_name []) p _ h
      (set-IsIndexed p.paragraph h p.current_name p.current_value)

field-IsIndexed :
    (f : Option (Text × Text)) (p : Parser)
    → IsIndexed p.paragraph
    → IsIndexed (first_line f p).paragraph
field-IsIndexed none p h = h
field-IsIndexed (some (name, value)) p h = commit-IsIndexed p h

parse_as-IsIndexed :
    (c : Option (ℕ × Text)) (line : Text) (p : Parser)
    → IsIndexed p.paragraph
    → IsIndexed (parse_as c line p).paragraph
parse_as-IsIndexed (some (indent, rest)) line p h =
    if-IsIndexed (equal p.current_name []) p (continue_field indent rest p) h
      (if-IsIndexed (indent == 1 && equal rest (codes ".")) _ _ h h)
parse_as-IsIndexed none line p h = field-IsIndexed (control_field line) p h

parse_lines-IsIndexed :
    (lines : List Text) (p : Parser)
    → IsIndexed p.paragraph
    → IsIndexed (parse_lines p lines).paragraph
unfolding parse_lines parse_line
parse_lines-IsIndexed [] p h = h
parse_lines-IsIndexed (line ∷ rest) p h = parse_lines-IsIndexed rest (parse_line p line) (
    parse_as-IsIndexed (continuation (trim_suffix line (13 ∷ []))) (trim_suffix line (13 ∷ [])) p h)

-- ParseParagraph returns a paragraph in which every indexed name is the name of the field at its
-- position, whatever the input.
pub parse_paragraph-IsIndexed : (input : Text) → IsIndexed (parse_paragraph input)
unfolding parse_paragraph
parse_paragraph-IsIndexed input =
    commit-IsIndexed _
      (parse_lines-IsIndexed (split b'\n' (unix_lines input)) initial empty-IsIndexed)
