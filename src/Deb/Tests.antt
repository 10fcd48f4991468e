-- ===== src/Deb/Tests.antt =====
-- Runs of internal/deb on a small package file.
use deb_s.Prelude.{
  ◌≡◌, refl, ap, ◌∙◌, arith, true, false, none, some, [], ◌∷◌, ◌++◌, Text, codes, has_prefix,
  length, Result, ok, and_then, trim_suffix, insert,
}
use deb_s.Samples.{codec}
use deb_s.Digest.{encode_to_string}
use deb_s.Apt.Package.{Package, new_package}
use deb_s.Apt.Package.Parse.{parse_package}
use deb_s.Deb.{PackageInfo, read_package, package_info, without_index_fields, check_version}
use deb_s.Deb.Ar.{ar_magic, new_archive, read_member, parse_header, name_in, size_in}
use deb_s.Deb.Control.{
  Tools, Stream, ReaderOptions, with_defaults, read_limited, body_stream, control_in, limited,
}
use deb_s.Deb.Format.{Heads, written, read_package-written}
use deb_s.Deb.Info.{IsOf, read_package-IsOf}
use deb_s.Deb.Fuel.{read_package-IsSome}
use deb_s.Deb.Reads.{read_all, read_all-limited, read_all-body_stream}

-- A tar archive is the body of its control file.
abbrev tools : Tools
tools = record {
  gzip = λ s. ok s;
  xz = λ s. ok s;
  zstd = λ s. ok s;
  bzip2 = λ s. s;
  untar = λ s. record {
    entries =
        record { name = codes "./control"; is_regular = true; size = length s.bytes; body = s }
        ∷ [];
    stop = none;
  };
  used = λ name options s. 3;
}

abbrev no_options : ReaderOptions
no_options = record { max_control_archive_size = 0; max_control_file_size = 0 }

abbrev control_text : Text
control_text = codes "Package: a\nVersion: 1\nSize: 7\n"

abbrev version_header : Text
version_header = codes "debian-binary   1234567890  0     0     100644  4         `\n"

abbrev control_header : Text
control_header = codes "control.tar     1234567890  0     0     100644  30        `\n"

abbrev data_header : Text
data_header = codes "data.tar.xz/    1234567890  0     0     100644  3         `\n"

version-Heads : Heads version_header (codes "debian-binary") (codes "2.0\n")
unfolding parse_header name_in size_in
version-Heads = record { heads = refl; size = refl }

control-Heads : Heads control_header (codes "control.tar") control_text
unfolding parse_header name_in size_in
control-Heads = record { heads = refl; size = refl }

data-Heads : Heads data_header (codes "data.tar.xz") (codes "xyz")
unfolding parse_header name_in size_in
data-Heads = record { heads = refl; size = refl }

abbrev small_file : Text
small_file =
    ar_magic
    ++ written (
        (version_header, codes "2.0\n")
        ∷ (control_header, control_text)
        ∷ (data_header, codes "xyz")
        ∷ [])

version_is_2 : check_version (codes "2.0\n") ≡ ok tt
unfolding check_version has_prefix
version_is_2 = refl

control_is_read :
    control_in tools
      (with_defaults no_options)
      (record { name = codes "control.tar"; size = length control_text })
      (record { bytes = control_text; stop = none })
    ≡ ok control_text
unfolding control_in with_defaults
control_is_read = refl

control_prefix :
    (has_prefix (codes "control.tar") (codes "_") ≡ false)
    × (has_prefix (codes "control.tar") (codes "control.tar") ≡ true)
unfolding has_prefix
control_prefix = (refl, refl)

data_prefix :
    (has_prefix (codes "data.tar.xz") (codes "_") ≡ false)
    × (has_prefix (codes "data.tar.xz") (codes "data.tar") ≡ true)
unfolding has_prefix
data_prefix = (refl, refl)

read_package-written_example :
    read_package 4 tools codec (codes "me") no_options small_file none
    ≡ some (
        and_then
          (control_in tools
            (with_defaults no_options)
            (record { name = codes "control.tar"; size = length control_text })
            (record { bytes = control_text; stop = none }))
          (package_info codec (codes "me") small_file))
read_package-written_example =
    read_package-written tools no_options codec (codes "me") version_header (codes "2.0\n")
      control_header (codes "control.tar") control_text data_header (codes "data.tar.xz")
      (codes "xyz") 0 version-Heads control-Heads data-Heads (omega arith) version_is_2
      control_prefix.0 control_prefix.1 data_prefix.0 data_prefix.1

-- The package that the control file describes.
abbrev small_package : Package
small_package = record (new_package (codes "me")) {
  name = codes "a";
  version = codes "1";
  architecture = [];
  maintainer = [];
  category = [];
  description = none;
  size = some (codes "7");
}

parsed : parse_package (codes "me") control_text ≡ ok small_package
unfolding parse_package trim_suffix insert
parsed = refl

abbrev small_info : PackageInfo
small_info = record {
  metadata = without_index_fields small_package;
  size = length small_file;
  md5 = encode_to_string (codec.md5_sum small_file);
  sha1 = encode_to_string (codec.sha1_sum small_file);
  sha256 = encode_to_string (codec.sha256_sum small_file);
}

info_lem : package_info codec (codes "me") small_file control_text ≡ ok small_info
unfolding package_info
info_lem = rw parsed refl

small_file_is_read :
    read_package 4 tools codec (codes "me") no_options small_file none ≡ some (ok small_info)
small_file_is_read =
    read_package-written tools no_options codec (codes "me") version_header (codes "2.0\n")
      control_header (codes "control.tar") control_text data_header (codes "data.tar.xz")
      (codes "xyz") 0 version-Heads control-Heads data-Heads (omega arith) version_is_2
      control_prefix.0 control_prefix.1 data_prefix.0 data_prefix.1
    ∙ ap (λ r. some (and_then r (package_info codec (codes "me") small_file))) control_is_read
    ∙ ap some info_lem

read_package-IsOf_example : IsOf codec (codes "me") small_file small_info
read_package-IsOf_example =
    read_package-IsOf codec (codes "me") small_file 4 tools no_options none small_info
      small_file_is_read

read_package-IsSome_example :
    (r : Result PackageInfo) × (read_package 500 tools codec
        (codes "me")
        no_options
        (codes "!<arch>\n")
        none
      ≡ some r)
read_package-IsSome_example =
    read_package-IsSome 500 tools codec (codes "me") no_options (codes "!<arch>\n") none
      (omega arith)

abbrev one_entry : Stream
one_entry = record { bytes = control_text; stop = none }

read_all-limited_example :
    read_all
      (read_limited 4)
      10
      (record { reader = record { bytes = codes "abcdefg"; stop = none }; remaining = 5 })
    ≡ some (limited 5 (record { bytes = codes "abcdefg"; stop = none }))
read_all-limited_example =
    read_all-limited 4 (omega arith) 10 5 (codes "abcdefg") none (omega arith) refl

read_all-body_stream_example :
    read_all (read_member 4) 10 (record (new_archive [] none) { rest = codes "abc"; remaining = 5 })
    ≡ some (body_stream (record (new_archive [] none) { rest = codes "abc"; remaining = 5 }))
read_all-body_stream_example =
    read_all-body_stream 4 (omega arith) 10 5 (codes "abc") (new_archive [] none) (omega arith)
