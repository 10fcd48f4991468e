-- ===== src/GoPath.antt =====
-- Go's package path on slash-separated names: Clean, Join, Dir, Base and IsAbs, which the keys of
-- internal/storage, internal/apt, internal/lock and internal/maintenance go through.
use deb_s.Prelude.{
  ℕ, Bool, true, false, not, ◌||◌, List, [], ◌∷◌, ◌++◌, reverse, ◌==◌, if◌then◌else◌, Text, codes,
  equal, split, join, trim_left,
}

abbrev pub slash : ℕ
slash = b'/'

-- `..` goes up from the innermost segment, or stays in front of a relative name.
abbrev pub go_up : Bool → List Text → List Text
go_up rooted [] = if rooted then [] else codes ".." ∷ []
go_up rooted (t ∷ out) = if equal t (codes "..") then codes ".." ∷ t ∷ out else out

-- One segment of the input; `out` has the segments kept so far, the last one first.
unfoldable pub clean_step : Bool → Text → List Text → List Text
unfolding equal
clean_step rooted s out =
    if equal s [] || equal s (codes ".")
    then out
    else if equal s (codes "..")
    then go_up rooted out
    else s ∷ out

unfoldable pub clean_segments : Bool → List Text → List Text → List Text
unfolding clean_step
clean_segments rooted out [] = out
clean_segments rooted out (s ∷ rest) = clean_segments rooted (clean_step rooted s out) rest

abbrev pub or_dot : List Text → Text
or_dot [] = codes "."
or_dot (s ∷ rest) = join (slash ∷ []) (s ∷ rest)

unfoldable pub render_path : Bool → List Text → Text
unfolding join
render_path true segments = slash ∷ join (slash ∷ []) segments
render_path false segments = or_dot segments

-- `path.IsAbs`
unfoldable pub is_abs : Text → Bool
is_abs [] = false
is_abs (c ∷ cs) = c == slash

-- `path.Clean`
unfoldable pub clean : Text → Text
unfolding is_abs render_path clean_segments split
clean p = render_path (is_abs p) (reverse (clean_segments (is_abs p) [] (split slash p)))

-- The elements with slashes between them; leading empty ones are left out.
unfoldable pub build : Text → List Text → Text
build buf [] = buf
build [] (e ∷ es) = build e es
build (c ∷ cs) (e ∷ es) = build ((c ∷ cs) ++ slash ∷ e) es

abbrev pub clean_nonempty : Text → Text
clean_nonempty [] = []
clean_nonempty (c ∷ cs) = clean (c ∷ cs)

-- `path.Join`
unfoldable pub join_path : List Text → Text
unfolding build clean
join_path es = clean_nonempty (build [] es)

-- `path.Dir`
unfoldable pub dir : Text → Text
unfolding clean trim_left
dir p = clean (reverse (trim_left (λ c. not (c == slash)) (reverse p)))

until_slash : Text → Text
until_slash [] = []
until_slash (c ∷ cs) = let rest = until_slash cs in if c == slash then [] else c ∷ rest

abbrev or_slash : Text → Text
or_slash [] = slash ∷ []
or_slash (c ∷ cs) = c ∷ cs

-- `path.Base`, and `filepath.Base` where the separator is a slash.
unfoldable pub base : Text → Text
unfolding until_slash trim_left
base [] = codes "."
base (c ∷ cs) = or_slash (reverse (until_slash (trim_left (λ d. d == slash) (reverse (c ∷ cs)))))
