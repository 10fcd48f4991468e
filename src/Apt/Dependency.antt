-- ===== src/Apt/Dependency.antt =====
-- internal/apt/dependency.go: dependency fields and the constraints that they expand to. The
-- regular expressions are written out as the scans that they describe.
use deb_s.Prelude.{
  ℕ, ◌≡◌, refl, zero, suc, ◌+◌, ◌%◌, Bool, true, false, not, ◌&&◌, ◌||◌, Option, none, some, List,
  [], ◌∷◌, ◌++◌, map, reverse, ◌==◌, leb, if◌then◌else◌, Text, codes, equal, any, keep, has_prefix,
  trim_prefix, cut, span, split, join, trim, trim_left, is_space, to_lower, fields, contains_text,
  contains_byte, atoi_value, itoa, int_mod,
}

abbrev pub in_operator : ℕ → Bool
in_operator c = c == b'>' || c == b'=' || c == b'<'

-- `version)` at the end of a constraint; the version has no `)`.
abbrev pub closed : Option (Text × Text) → Option Text
closed (some (c ∷ cs, [])) = some (c ∷ cs)
closed _ = none

abbrev pub with_version : Text → Option Text → Option (Text × Text)
with_version operator none = none
with_version operator (some version) = some (operator, version)

abbrev pub spaced : Text × Text → Option (Text × Text)
spaced (c ∷ cs, d ∷ rest) =
    if d == b' ' then with_version (c ∷ cs) (closed (cut b')' rest)) else none
spaced _ = none

abbrev pub opened : Text → Option (Text × Text)
opened [] = none
opened (c ∷ rest) = if c == b'(' then spaced (span in_operator rest) else none

abbrev pub constrained : Text → Option (Text × Text) → Option (Text × Text × Text)
constrained name none = none
constrained name (some (operator, version)) = some (name, operator, version)

abbrev pub matched : Text → Option (Text × Text) → Option (Text × Text × Text)
matched [] _ = none
matched (c ∷ cs) none = some (c ∷ cs, [], [])
matched _ (some ([], rest)) = none
matched _ (some (c ∷ cs, rest)) = constrained (c ∷ cs) (opened rest)

-- `dependencyPattern.FindStringSubmatch`: the name, the operator and the version.
unfoldable pub match_dependency : Text → Option (Text × Text × Text)
unfolding cut span
match_dependency d = matched d (cut b' ' d)

abbrev pub rebuilt : Text → Option (Text × Text × Text) → Text
rebuilt d none = d
rebuilt d (some (name, operator, version)) =
    if not (equal operator []) && not (equal version [])
    then trim is_space (name ++ codes " (" ++ operator ++ codes " " ++ version ++ codes ")")
    else trim is_space name

-- The pieces between commas, each with the blanks behind its comma taken off.
abbrev pub comma_pieces : List Text → List Text
comma_pieces [] = []
comma_pieces (t ∷ ts) = t ∷ map (trim_left (λ c. c == b' ')) ts

unfoldable pub parse_dependencies : Text → List Text
unfolding match_dependency equal trim trim_left split
parse_dependencies value =
    if equal value []
    then []
    else map (λ d. rebuilt d (match_dependency d)) (comma_pieces (split b',' value))

unfoldable pub debianize_operator : Text → Text
unfolding equal
debianize_operator operator =
    if equal operator (codes "<")
    then codes "<<"
    else if equal operator (codes ">")
    then codes ">>"
    else operator

-- The numbers between the dots, as bit patterns of `int`.
unfoldable pub numeric_version : Text → List ℕ
unfolding split atoi_value
numeric_version version = map atoi_value (split b'.' version)

unfoldable pub join_numeric_version : List ℕ → Text
unfolding join itoa
join_numeric_version version = join (codes ".") (map itoa version)

-- `next[i]++`
abbrev pub increment_at : ℕ → List ℕ → List ℕ
increment_at i [] = []
increment_at zero (n ∷ ns) = ((n + 1) % int_mod) ∷ ns
increment_at (suc i) (n ∷ ns) = n ∷ increment_at i ns

-- `next[len(next)-2]++`, or `next[0]++` where there is one number only.
abbrev pub increment_minor : List ℕ → List ℕ
increment_minor [] = []
increment_minor (n ∷ []) = ((n + 1) % int_mod) ∷ []
increment_minor (n ∷ m ∷ []) = ((n + 1) % int_mod) ∷ m ∷ []
increment_minor (n ∷ m ∷ k ∷ ns) = n ∷ increment_minor (m ∷ k ∷ ns)

-- `next[len(next)-1] = 0`
abbrev pub zero_last : List ℕ → List ℕ
zero_last [] = []
zero_last (n ∷ []) = 0 ∷ []
zero_last (n ∷ m ∷ ns) = n ∷ zero_last (m ∷ ns)

-- `next[len(next)-1]++`
abbrev pub increment_last : List ℕ → List ℕ
increment_last [] = []
increment_last (n ∷ []) = ((n + 1) % int_mod) ∷ []
increment_last (n ∷ m ∷ ns) = n ∷ increment_last (m ∷ ns)

abbrev pub between : Text → Text → List ℕ → List Text
between name low next =
    (name ++ codes " (>= " ++ low ++ codes ")")
    ∷ (name ++ codes " (<< " ++ join_numeric_version next ++ codes ")")
    ∷ []

abbrev pub rewritten : Text → List Text → Text
rewritten d (a ∷ b ∷ c ∷ rest) =
    a ++ codes " (" ++ debianize_operator b ++ codes " " ++ c ++ codes ")"
rewritten d _ = d

-- `name operator version` with no brackets, written with them.
unfoldable pub bracketed : Text → Text
unfolding any fields debianize_operator
bracketed d = if any (λ c. c == b'(' || c == b',' || c == b'|') d then d else rewritten d (fields d)

abbrev pub is_upper : ℕ → Bool
is_upper c = leb b'A' c && leb c b'Z'

abbrev pub lowered : Text → Text × Text → Text
lowered d (name, rest) = if any is_upper name then to_lower name ++ rest else d

-- The name of the package in lower case.
unfoldable pub lower_name : Text → Text
unfolding span any to_lower
lower_name d = lowered d (span (λ c. not (c == b' ' || c == b'(')) d)

unfoldable pub dashed : Text → Text
dashed = map (λ c. if c == b'_' then b'-' else c)

-- The white space `\s` of a regular expression.
abbrev pub is_blank : ℕ → Bool
is_blank c = c == 9 || c == 10 || c == 12 || c == 13 || c == 32

-- `(.+)\)$`: the text before a last `)`, with no line feed.
abbrev pub reversed_inner : Text → Option Text
reversed_inner [] = none
reversed_inner (c ∷ []) = none
reversed_inner (c ∷ d ∷ ds) =
    if c == b')' && not (contains_byte (d ∷ ds) 10) then some (reverse (d ∷ ds)) else none

abbrev pub inner : Text → Text → Option Text
inner start rest =
    if has_prefix rest start then reversed_inner (reverse (trim_prefix rest start)) else none

abbrev pub bracket : Text → Text → Text × Text → Option (Text × Text)
bracket start name ([], rest) = none
bracket start name (c ∷ cs, rest) = with_version name (inner start rest)

abbrev pub bracket_named : Text → Text × Text → Option (Text × Text)
bracket_named start ([], rest) = none
bracket_named start (c ∷ cs, rest) = bracket start (c ∷ cs) (span is_blank rest)

-- `^(\S+)\s+START(.+)\)$`, for `inequalityPattern` and `exactDependencyPattern`.
unfoldable pub match_bracket : Text → Text → Option (Text × Text)
unfolding span has_prefix trim_prefix contains_byte
match_bracket start d = bracket_named start (span (λ c. not (is_blank c)) d)

-- `strings.Replace(s, "!=", "=", 1)`
unfoldable pub without_bang : Text → Text
unfolding has_prefix
without_bang [] = []
without_bang (c ∷ cs) =
    let rest = without_bang cs in if has_prefix (c ∷ cs) (codes "!=") then cs else c ∷ rest

abbrev pub trim_end : Text → Text
trim_end d = reverse (trim_left (λ c. c == 32 || c == 9 || c == 13 || c == 10) (reverse d))

abbrev pub exactly : Text → Option (Text × Text) → List Text × Text
exactly d none = (trim_end d ∷ [], [])
exactly d (some (name, version)) =
    (between name version (increment_last (numeric_version version)), [])

abbrev pub unequal : Bool → Text → Option (Text × Text) → List Text × Text
unequal ignore_iteration d (some _) = ([], without_bang d)
unequal ignore_iteration d none =
    exactly d (if ignore_iteration then match_bracket (codes "(= ") d else none)

abbrev pub is_mark : ℕ → Bool
is_mark c = c == b'(' || c == b')' || c == b'~' || c == b'>'

abbrev pub pessimistic : Text × List Text → Bool → List Text × Text
pessimistic (d, name ∷ version ∷ rest) ignore_iteration =
    (between name version (zero_last (increment_minor (numeric_version version))), [])
pessimistic (d, _) ignore_iteration = unequal ignore_iteration d (match_bracket (codes "(!= ") d)

abbrev pub expanded : Bool → Text → List Text × Text
expanded ignore_iteration d =
    if contains_text d (codes "(~>")
    then pessimistic (d, fields (keep (λ c. not (is_mark c)) d)) ignore_iteration
    else unequal ignore_iteration d (match_bracket (codes "(!= ") d)

-- `normalizeDependency`: the dependencies that take its place, and a conflict or an empty text.
unfoldable pub normalize_dependency : Text → Bool → List Text × Text
unfolding bracketed lower_name dashed contains_text keep fields match_bracket numeric_version
    join_numeric_version without_bang trim_left
normalize_dependency dependency ignore_iteration =
    expanded ignore_iteration (dashed (lower_name (bracketed dependency)))

normalize_dependency_tests :
    (normalize_dependency (codes "Foo_bar > 1.2") false ≡ (codes "foo-bar (>> 1.2)" ∷ [], []))
    × (normalize_dependency (codes "a (~> 1.2.3)") false
        ≡ (codes "a (>= 1.2.3)" ∷ codes "a (<< 1.3.0)" ∷ [], []))
    × (normalize_dependency (codes "a (!= 1)") false ≡ ([], codes "a (= 1)"))
    × (normalize_dependency (codes "a (= 1.9-x)") true
        ≡ (codes "a (>= 1.9-x)" ∷ codes "a (<< 1.1)" ∷ [], []))
    × (normalize_dependency (codes "a (~> 2)") false
        ≡ (codes "a (>= 2)" ∷ codes "a (<< 0)" ∷ [], []))
unfolding normalize_dependency
normalize_dependency_tests = (refl, refl, refl, refl, refl)

parse_dependencies_tests :
    parse_dependencies (codes "a, b (>= 1.0),  c | d")
    ≡ (codes "a" ∷ codes "b (>= 1.0)" ∷ codes "c | d" ∷ [])
unfolding parse_dependencies
parse_dependencies_tests = refl
