-- ===== src/Deb/Ar.antt =====
-- internal/deb/ar.go: `arReader`, over a stream that gives its bytes and then ends, or fails.
use deb_s.Prelude.{
  ℕ, ◌-◌, ◌%◌, Bool, true, false, not, ◌&&◌, ◌||◌, Option, none, some, [], ◌∷◌, ◌++◌, ◌==◌, leb,
  if◌then◌else◌, Text, codes, equal, has_prefix, trim_suffix, trim, is_space, length, take, drop,
  parse_size, Reason, Error, Result, ok, err, failed, wrapped, Exec, lift, ◌>>=◌, ◌>>◌, end_of_file,
  unexpected_end, missing_magic, incorrect_magic, truncated_member, truncated_padding,
  truncated_header, bad_trailer, empty_name, extended_name, bad_size,
}

-- `rest` is what the stream has left and `stop` the error behind it, `none` at a proper end; `taken`
-- is what was read from it.
pub record Archive : Type 0 where
  pub rest : Text
  pub stop : Option Error
  pub taken : Text
  pub started : Bool
  pub remaining : ℕ
  pub padding : ℕ

-- `newARReader`
abbrev pub new_archive : Text → Option Error → Archive
new_archive input stop = record {
  rest = input;
  stop = stop;
  taken = [];
  started = false;
  remaining = 0;
  padding = 0;
}

-- The body is read from the archive itself.
pub record Member : Type 0 where
  pub name : Text
  pub size : ℕ

abbrev pub ar_magic : Text
ar_magic = codes "!<arch>\n"

abbrev pub header_size : ℕ
header_size = 60

-- `errors.Is(err, io.EOF)` and `errors.Is(err, io.ErrUnexpectedEOF)`
abbrev pub is_end : Error → Bool
is_end (failed end_of_file) = true
is_end (wrapped e) = is_end e
is_end _ = false

abbrev pub is_unexpected_end : Error → Bool
is_unexpected_end (failed unexpected_end) = true
is_unexpected_end (wrapped e) = is_unexpected_end e
is_unexpected_end _ = false

abbrev pub format_read_error : Error → Reason → Error
format_read_error e reason = if is_end e || is_unexpected_end e then failed reason else e

abbrev pub reading : {A : Type 0} → Reason → Result A × Archive → Result A × Archive
reading reason (ok a, s) = (ok a, s)
reading reason (err e, s) = (err (format_read_error e reason), s)

abbrev pub advance : ℕ → Archive → Archive
advance n a = record a { rest = drop n a.rest; taken = a.taken ++ take n a.rest }

-- What a read returns at the end of the stream.
abbrev pub stopped : Option Error → Error → Error
stopped none e = e
stopped (some e) _ = e

abbrev short_read : Text → Error
short_read [] = failed end_of_file
short_read (_ ∷ _) = failed unexpected_end

-- `io.ReadFull` with a buffer of `n` bytes.
unfoldable pub read_full : ℕ → Exec Archive Text
read_full n a =
    if leb n (length a.rest)
    then (ok (take n a.rest), advance n a)
    else (err (stopped a.stop (short_read a.rest)), advance (length a.rest) a)

-- `io.CopyN(io.Discard, r.reader, n)`
unfoldable pub discard : ℕ → Exec Archive (Unit {0})
discard n a =
    if leb n (length a.rest)
    then (ok tt, advance n a)
    else (err (stopped a.stop (failed end_of_file)), advance (length a.rest) a)

abbrev pub check_magic : Text → Exec Archive (Unit {0})
check_magic magic a =
    if equal magic ar_magic
    then (ok tt, record a { started = true })
    else (err (failed incorrect_magic), a)

abbrev pub read_magic : Exec Archive Text
read_magic a = reading missing_magic (read_full 8 a)

-- The magic in front of the first member.
unfoldable pub start : Exec Archive (Unit {0})
unfolding read_full equal ◌>>=◌
start a = if a.started then (ok tt, a) else (read_magic >>= check_magic) a

abbrev pub discard_body : Exec Archive (Unit {0})
discard_body a =
    if a.remaining == 0 then (ok tt, a) else reading truncated_member (discard a.remaining a)

abbrev pub read_padding : Exec Archive Text
read_padding a =
    if a.padding == 0 then (ok [], a) else reading truncated_padding (read_full a.padding a)

abbrev pub at_boundary : Exec Archive (Unit {0})
at_boundary a = (ok tt, record a { remaining = 0; padding = 0 })

-- What is left of the last member.
unfoldable pub skip_member : Exec Archive (Unit {0})
unfolding discard read_full ◌>>=◌
skip_member = do discard_body; read_padding; at_boundary

-- No byte of a header is the end of the archive.
abbrev pub header_error : Text → Result Text × Archive → Result Text × Archive
header_error rest (ok header, a) = (ok header, a)
header_error rest (err e, a) = (
  err (
      if is_end e && equal rest []
      then failed end_of_file
      else format_read_error e truncated_header),
  a,
)

unfoldable pub read_header : Exec Archive Text
unfolding read_full equal
read_header a = header_error a.rest (read_full header_size a)

abbrev pub sized : Text → Option ℕ → Result Member
sized name none = err (failed bad_size)
sized name (some size) = ok (record { name = name; size = size })

-- The name and the size that a header has.
unfoldable pub name_in : Text → Text
unfolding trim trim_suffix
name_in header = trim_suffix (trim is_space (take 16 header)) (codes "/")

unfoldable pub size_in : Text → Option ℕ
unfolding trim parse_size
size_in header = parse_size (trim is_space (take 10 (drop 48 header)))

unfoldable pub parse_header : Text → Result Member
unfolding equal has_prefix name_in size_in
parse_header header =
    if not (equal (take 2 (drop 58 header)) (codes "`\n"))
    then err (failed bad_trailer)
    else if equal (name_in header) []
    then err (failed empty_name)
    else if equal (name_in header) (codes "/")
        || equal (name_in header) (codes "//")
        || has_prefix (name_in header) (codes "#1/")
    then err (failed extended_name)
    else sized (name_in header) (size_in header)

abbrev pub begin_member : Member → Exec Archive Member
begin_member m a = (ok m, record a { remaining = m.size; padding = m.size % 2 })

-- `arReader.Next`
unfoldable pub next : Exec Archive Member
unfolding start skip_member read_header parse_header ◌>>=◌
next = do
  start
  skip_member
  header ← read_header
  member ← lift (parse_header header)
  begin_member member

-- `memberReader.Read` with a buffer of `n` bytes: the bytes, and an error beside them.
abbrev pub read_at : ℕ → Archive → (Text × Option Error) × Archive
read_at n a = if equal a.rest [] then (([], some (stopped a.stop (failed end_of_file))), a) else (
  (take n a.rest, none),
  record (advance n a) { remaining = a.remaining - length (take n a.rest) },
)

abbrev unexpected : (Text × Option Error) × Archive → (Text × Option Error) × Archive
unexpected ((bytes, none), a) = ((bytes, none), a)
unexpected ((bytes, some e), a) =
    ((bytes, some (if is_end e && not (a.remaining == 0) then failed unexpected_end else e)), a)

unfoldable pub read_member : ℕ → Archive → (Text × Option Error) × Archive
unfolding equal
read_member n a =
    if a.remaining == 0
    then (([], some (failed end_of_file)), a)
    else unexpected (read_at (if leb n a.remaining then n else a.remaining) a)

-- What reading the body of a member to its end comes to.
unfoldable pub read_body : Exec Archive Text
read_body a =
    if leb a.remaining (length a.rest)
    then (ok (take a.remaining a.rest), record (advance a.remaining a) { remaining = 0 })
    else (
      err (
          if is_end (stopped a.stop (failed end_of_file))
          then failed unexpected_end
          else stopped a.stop (failed end_of_file)),
      record (advance (length a.rest) a) { remaining = a.remaining - length a.rest },
    )
