-- ===== src/Deb.antt =====
-- internal/deb: the metadata of a Debian package file, in internal/deb/reader.go. `tools` are the
-- decompressors and archive/tar. `members` takes the members on fuel.
pub mod Ar
pub mod Control
pub mod Whole
pub mod Ends
pub mod Info
pub mod Fuel
pub mod Reads
pub mod Limits
pub mod Written
pub mod Format
mod Tests
use deb_s.Prelude.{
  ◌>>=◌, ◌>>◌, ℕ, zero, suc, Bool, true, false, not, Option, none, some, [], if◌then◌else◌, ltb,
  Text, codes, equal, has_prefix, length, trim, is_space, decimal, Error, Result, ok, err, failed,
  wrapped, and_then, wrap, Exec, pure, raise, lift, not_debian_binary, large_debian_binary,
  truncated_debian_binary, unsupported_version, unexpected_member, no_debian_binary,
  no_control_archive, no_data_archive,
}
use deb_s.Digest.{Codec, encode_to_string}
use deb_s.Apt.Package.{Package}
use deb_s.Apt.Package.Parse.{parse_package}
use Ar.{Archive, Member, new_archive, next, read_body, is_end, format_read_error}
use Control.{Tools, ReaderOptions, with_defaults, read_control_archive}

pub record PackageInfo : Type 0 where
  pub metadata : Package
  pub size : ℕ
  pub md5 : Text
  pub sha1 : Text
  pub sha256 : Text

-- What was seen of the members, and the member that is expected.
pub data Stage : Type 0 where
  first control_next data_next trailing : Stage

pub record Progress : Type 0 where
  pub control : Text
  pub seen_debian_binary : Bool
  pub seen_control : Bool
  pub seen_data : Bool
  pub stage : Stage

abbrev pub at_first : Progress
at_first = record {
  control = [];
  seen_debian_binary = false;
  seen_control = false;
  seen_data = false;
  stage = first;
}

abbrev pub truncated : Result Text × Archive → Result Text × Archive
truncated (ok value, a) = (ok value, a)
truncated (err e, a) = (err (format_read_error e truncated_debian_binary), a)

abbrev pub read_version : Exec Archive Text
read_version a = truncated (read_body a)

-- `strings.Cut(version, ".")` gives the major version "2".
abbrev major_is_2 : Text → Bool
major_is_2 version = has_prefix version (codes "2.")

unfoldable pub check_version : Text → Result (Unit {0})
unfolding has_prefix trim
check_version value =
    if major_is_2 (trim is_space value) then ok tt else err (failed unsupported_version)

-- `validateDebianBinary`
unfoldable pub validate_debian_binary : Member → Exec Archive (Unit {0})
unfolding read_body check_version ◌>>=◌
validate_debian_binary member =
    if ltb 32 member.size
    then raise (failed large_debian_binary)
    else (do value ← read_version; lift (check_version value))

module _ (tools : Tools) (options : ReaderOptions) where
  abbrev with_control : Progress → Exec Archive Text → Exec Archive Progress
  with_control p m = do
    control ← m
    pure (record p { control = control; seen_control = true; stage = data_next })

  -- One member, by what is expected.
  abbrev pub at_stage : Stage → Progress → Member → Exec Archive Progress
  at_stage first p member =
      if not (equal member.name (codes "debian-binary"))
      then raise (failed not_debian_binary)
      else (do
        validate_debian_binary member
        pure (record p { seen_debian_binary = true; stage = control_next }))
  at_stage control_next p member =
      if has_prefix member.name (codes "_")
      then pure p
      else if not (has_prefix member.name (codes "control.tar"))
      then raise (failed unexpected_member)
      else with_control p (read_control_archive tools options member)
  at_stage data_next p member =
      if has_prefix member.name (codes "_")
      then pure p
      else if not (has_prefix member.name (codes "data.tar"))
      then raise (failed unexpected_member)
      else pure (record p { seen_data = true; stage = trailing })
  at_stage trailing p member = pure p

  unfoldable pub take_member : Progress → Member → Exec Archive Progress
  unfolding equal has_prefix validate_debian_binary read_control_archive ◌>>=◌
  take_member p member = at_stage p.stage p member

  abbrev pub member_taken :
      Result Progress × Archive
      → (Progress → Archive → Option (Result Progress × Archive))
      → Option (Result Progress × Archive)
  member_taken (ok p, a) rest = rest p a
  member_taken (err e, a) rest = some (err e, a)

  abbrev pub member_read :
      Progress
      → Result Member × Archive
      → (Progress → Archive → Option (Result Progress × Archive))
      → Option (Result Progress × Archive)
  member_read p (ok member, a) rest = member_taken (take_member p member a) rest
  member_read p (err e, a) rest = some ((if is_end e then ok p else err e), a)

  -- The loop over the members; `none` means that the fuel ran out.
  unfoldable pub members : ℕ → Progress → Archive → Option (Result Progress × Archive)
  unfolding next take_member
  members zero p a = none
  members (suc fuel) p a = member_read p (next a) (λ p' a'. members fuel p' a')

-- The control file of a complete package.
unfoldable pub complete : Progress → Result Text
complete p =
    if not p.seen_debian_binary
    then err (failed no_debian_binary)
    else if not p.seen_control
    then err (failed no_control_archive)
    else if not p.seen_data
    then err (failed no_data_archive)
    else ok p.control

-- The fields that describe an entry of an index are not taken from a control file.
unfoldable pub without_index_fields : Package → Package
without_index_fields pack = record pack {
  index_filename = none;
  size = none;
  md5 = none;
  sha1 = none;
  sha256 = none;
}

-- The digests and the counter have seen what was taken from the stream.
unfoldable pub package_info : Codec → Text → Text → Text → Result PackageInfo
unfolding without_index_fields encode_to_string parse_package
package_info c maintainer taken control = and_then (wrap (parse_package maintainer control)) λ pack.
    ok (record {
      metadata = without_index_fields pack;
      size = length taken;
      md5 = encode_to_string (c.md5_sum taken);
      sha1 = encode_to_string (c.sha1_sum taken);
      sha256 = encode_to_string (c.sha256_sum taken);
    })

abbrev pub inspected : Codec → Text → Result Progress × Archive → Result PackageInfo
inspected c maintainer (r, a) =
    and_then r λ p. and_then (complete p) λ control. package_info c maintainer a.taken control

abbrev pub if_done : Codec → Text → Option (Result Progress × Archive) → Option (Result PackageInfo)
if_done c maintainer none = none
if_done c maintainer (some x) = some (inspected c maintainer x)

-- `ReadPackage` of a stream that gives `input`.
unfoldable pub read_package :
    ℕ → Tools → Codec → Text → ReaderOptions → Text → Option Error → Option (Result PackageInfo)
unfolding members with_defaults complete package_info
read_package fuel tools c maintainer options input stop =
    if_done c maintainer
      (members tools (with_defaults options) fuel at_first (new_archive input stop))

-- The package with the facts of its file.
unfoldable pub with_file : Text → PackageInfo → PackageInfo
unfolding decimal
with_file filename info = record info {
  metadata = record info.metadata {
    filename = filename;
    size = some (decimal info.size);
    md5 = some info.md5;
    sha1 = some info.sha1;
    sha256 = some info.sha256;
  };
}

abbrev of_file : Text → Option (Result PackageInfo) → Option (Result PackageInfo)
of_file filename none = none
of_file filename (some r) = some (and_then (wrap r) λ info. ok (with_file filename info))

abbrev opened :
    ℕ
    → Tools
    → Codec
    → Text
    → ReaderOptions
    → Text
    → Result (Text × Option Error)
    → Option (Result PackageInfo)
opened fuel tools c maintainer options filename (err e) = some (err (wrapped e))
opened fuel tools c maintainer options filename (ok (input, stop)) =
    of_file filename (read_package fuel tools c maintainer options input stop)

-- `ReadPackageFile`; `files` is `os.Open`, with what the file gives.
unfoldable pub read_package_file :
    ℕ
    → Tools
    → Codec
    → Text
    → ReaderOptions
    → (Text → Result (Text × Option Error))
    → Text
    → Option (Result PackageInfo)
unfolding read_package with_file
read_package_file fuel tools c maintainer options files filename =
    opened fuel tools c maintainer options filename (files filename)
