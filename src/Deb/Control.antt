-- ===== src/Deb/Control.antt =====
-- internal/deb/reader.go: the control archive. The decompressors and archive/tar are parameters, as
-- functions of the streams that they read.
use deb_s.Prelude.{
  ℕ, ◌-◌, ◌+◌, ◌*◌, ◌^◌, min, Bool, true, false, not, ◌||◌, Option, none, some, List, [], ◌∷◌, ◌==◌,
  ltb, leb, if◌then◌else◌, Text, codes, equal, length, take, drop, trim_prefix, sign_bit, Error,
  Result, ok, err, failed, wrapped, cancelled, and_then, Exec, end_of_file, unexpected_end,
  bad_compression, unsupported_compression, unsafe_tar_path, bad_tar, not_regular,
  unreadable_control, archive_too_large, no_control_file,
}
use deb_s.GoPath.{is_abs, clean}
use deb_s.Storage.Key.{escapes}
use deb_s.Deb.Ar.{Archive, Member, advance, stopped, is_end}

-- Bytes, and the error behind them, `none` at a proper end.
pub record Stream : Type 0 where
  pub bytes : Text
  pub stop : Option Error

-- `size` is what the header of the entry says.
pub record TarEntry : Type 0 where
  pub name : Text
  pub is_regular : Bool
  pub size : ℕ
  pub body : Stream

pub record TarFile : Type 0 where
  pub entries : List TarEntry
  pub stop : Option Error

-- Two sizes, as 64-bit integers.
pub record ReaderOptions : Type 0 where
  pub max_control_archive_size : ℕ
  pub max_control_file_size : ℕ

-- `used` is how much of a compressed stream is read.
pub record Tools : Type 0 where
  pub gzip : Stream → Result Stream
  pub xz : Stream → Result Stream
  pub zstd : Stream → Result Stream
  pub bzip2 : Stream → Stream
  pub untar : Stream → TarFile
  pub used : Text → ReaderOptions → Stream → ℕ

abbrev or_default : ℕ → ℕ → ℕ
or_default default size = if size == 0 || leb sign_bit size then default else size

-- `ReaderOptions.withDefaults`
unfoldable pub with_defaults : ReaderOptions → ReaderOptions
with_defaults options = record {
  max_control_archive_size = or_default (64 * 2 ^ 20) options.max_control_archive_size;
  max_control_file_size = or_default (8 * 2 ^ 20) options.max_control_file_size;
}

abbrev invalid_format : Result Stream → Result Stream
invalid_format (ok s) = ok s
invalid_format (err _) = err (failed bad_compression)

-- `decompressControl`
unfoldable pub decompress_control : Tools → Text → Stream → Result Stream
unfolding equal
decompress_control tools name s =
    if equal name (codes "control.tar")
    then ok s
    else if equal name (codes "control.tar.gz")
    then invalid_format (tools.gzip s)
    else if equal name (codes "control.tar.xz")
    then invalid_format (tools.xz s)
    else if equal name (codes "control.tar.zst")
    then invalid_format (tools.zstd s)
    else if equal name (codes "control.tar.bz2")
    then ok (tools.bzip2 s)
    else err (failed unsupported_compression)

pub record SizeLimitedReader : Type 0 where
  pub reader : Stream
  pub remaining : ℕ

-- A read from a stream with a buffer of `n` bytes: the bytes, and an error beside them.
abbrev pub read_stream : ℕ → Stream → (Text × Option Error) × Stream
read_stream n s =
    if equal s.bytes []
    then (([], some (stopped s.stop (failed end_of_file))), s)
    else ((take n s.bytes, none), record s { bytes = drop n s.bytes })

-- More than the limit, if one more byte could be read.
abbrev probed : (Text × Option Error) × Stream → Text × Option Error
probed (([], e), s) = ([], e)
probed ((_ ∷ _, e), s) = ([], some (failed archive_too_large))

abbrev count :
    SizeLimitedReader → (Text × Option Error) × Stream → (Text × Option Error) × SizeLimitedReader
count r ((bytes, e), s) =
    ((bytes, e), record { reader = s; remaining = r.remaining - length bytes })

-- `sizeLimitedReader.Read`
unfoldable pub read_limited : ℕ → SizeLimitedReader → (Text × Option Error) × SizeLimitedReader
unfolding equal
read_limited n r =
    if r.remaining == 0
    then (probed (read_stream 1 r.reader), record r { reader = (read_stream 1 r.reader).1 })
    else count r (read_stream (if leb n r.remaining then n else r.remaining) r.reader)

-- The stream that a `sizeLimitedReader` makes of another one.
unfoldable pub limited : ℕ → Stream → Stream
limited limit s =
    if leb (length s.bytes) limit
    then s
    else record { bytes = take limit s.bytes; stop = some (failed archive_too_large) }

-- `safeTarName`
unfoldable pub safe_tar_name : Text → Result Text
unfolding equal is_abs trim_prefix clean escapes
safe_tar_name name =
    if equal name [] || is_abs name
    then err (failed unsafe_tar_path)
    else let cleaned = clean (trim_prefix name (codes "./")) in
      if is_abs cleaned || escapes cleaned then err (failed unsafe_tar_path) else ok cleaned

-- The errors that are returned as they are: a limit or the context.
abbrev pub passes : Error → Bool
passes (failed archive_too_large) = true
passes cancelled = true
passes (wrapped e) = passes e
passes _ = false

abbrev pub at_stop : Text → Option Error → Result Text
at_stop bytes none = ok bytes
at_stop bytes (some e) = err (if passes e then e else failed unreadable_control)

-- `io.ReadAll` of the first bytes of a stream, at most `n`.
unfoldable pub read_up_to : ℕ → Stream → Result Text
read_up_to n s = if leb n (length s.bytes) then ok (take n s.bytes) else at_stop s.bytes s.stop

abbrev pub within : ℕ → Text → Result Text
within limit value = if ltb limit (length value) then err (failed archive_too_large) else ok value

-- The body of the control file.
unfoldable pub read_entry : ℕ → TarEntry → Result Text
unfolding read_up_to
read_entry limit entry =
    if not entry.is_regular
    then err (failed not_regular)
    else if ltb limit entry.size
    then err (failed archive_too_large)
    else and_then (read_up_to (limit + 1) entry.body) (within limit)

abbrev pub tar_stopped : Option Error → Option Text → Result Text
tar_stopped none none = err (failed no_control_file)
tar_stopped none (some control) = ok control
tar_stopped (some e) control = err (if passes e then e else failed bad_tar)

-- The loop of `readControlTar`: the last control file counts.
unfoldable pub control_of : ℕ → List TarEntry → Option Error → Option Text → Result Text
unfolding safe_tar_name read_entry equal
control_of limit [] stop control = tar_stopped stop control
control_of limit (entry ∷ entries) stop control = and_then (safe_tar_name entry.name) λ name.
    if not (equal name (codes "control"))
    then control_of limit entries stop control
    else and_then (read_entry limit entry) λ value. control_of limit entries stop (some value)

unfoldable pub read_control_tar : Tools → ℕ → Stream → Result Text
unfolding control_of
read_control_tar tools limit s = control_of limit (tools.untar s).entries (tools.untar s).stop none

abbrev pub unexpected_stop : Option Error → Error
unexpected_stop none = failed unexpected_end
unexpected_stop (some e) = if is_end e then failed unexpected_end else e

-- The body of the member that begins here.
unfoldable pub body_stream : Archive → Stream
body_stream a = record {
  bytes = take a.remaining a.rest;
  stop = (if leb a.remaining (length a.rest) then none else some (unexpected_stop a.stop));
}

abbrev pub consume : ℕ → Archive → Archive
consume n a = record (advance n a) { remaining = a.remaining - n }

unfoldable pub control_in : Tools → ReaderOptions → Member → Stream → Result Text
unfolding decompress_control limited read_control_tar
control_in tools options member s = and_then (decompress_control tools member.name s) λ t.
    read_control_tar tools options.max_control_file_size
      (limited options.max_control_archive_size t)

-- `readControlArchive`
unfoldable pub read_control_archive : Tools → ReaderOptions → Member → Exec Archive Text
unfolding body_stream control_in
read_control_archive tools options member a =
    let s = body_stream a in
    (
      control_in tools options member s,
      consume (min (tools.used member.name options s) (length s.bytes)) a,
    )
