-- ===== src/Apt/Release.antt =====
-- internal/apt/release.go and release_retrieve.go: the Release file of a codename. Its store is an
-- argument of the operations that use it, and its clock is the date that it shows.
pub mod Types
use deb_s.Prelude.{
  ℕ, ◌-◌, zero, suc, Bool, true, false, not, ◌&&◌, ◌||◌, Option, none, some, List, [], ◌∷◌, ◌++◌,
  map, ◌==◌, if◌then◌else◌, Text, codes, equal, length, has_prefix, trim_prefix, trim, is_space,
  to_lower, contains, unix_lines, split, join, fields, parse_size, decimal, Dict, lookup, insert,
  sort_by, Error, Result, ok, err, failed, no_clock, wrapped, is_not_found, Exec,
}
use deb_s.GoPath.{join_path}
use deb_s.Storage.Types.{Store}
use deb_s.Apt.Manifest.Types.{FileHashes, ManifestOptions, Manifest}
use deb_s.Apt.Manifest.{new_manifest}
use deb_s.Apt.Render.{write_field, write_optional_field, pointer_value, or_text}
use Types.{SignatureArtifacts, ReleaseOptions, Release}

abbrev pub release_architectures : List Text
release_architectures = codes "amd64" ∷ codes "i386" ∷ codes "armhf" ∷ codes "arm64" ∷ []

abbrev pub or_false : Option Bool → Bool
or_false none = false
or_false (some b) = b

-- `NewRelease`; `clock` is the reading of `time.Now`.
unfoldable pub new_release : Text → ReleaseOptions → Release
new_release clock o = record {
  codename = o.codename;
  origin = o.origin;
  suite = o.suite;
  architectures = [];
  components = [];
  cache_control = o.cache_control;
  by_hash = or_false o.by_hash;
  signer = o.signer;
  files = [];
  now = some (or_text clock o.now);
}

abbrev pub no_options : ReleaseOptions
no_options = record {
  codename = [];
  origin = none;
  suite = none;
  cache_control = [];
  by_hash = none;
  signer = none;
  now = none;
}

unfoldable pub first_field : Text → List Text → Option Text
unfolding has_prefix trim_prefix
first_field start [] = none
first_field start (line ∷ rest) =
    if has_prefix line start then some (trim_prefix line start) else first_field start rest

unfoldable pub release_field : Text → Text → Option Text
unfolding first_field unix_lines split
release_field input name = first_field (name ++ codes ": ") (split b'\n' (unix_lines input))

abbrev pub no_hashes : FileHashes
no_hashes = record { size = 0; md5 = []; sha1 = []; sha256 = [] }

abbrev pub or_no_hashes : Option FileHashes → FileHashes
or_no_hashes none = no_hashes
or_no_hashes (some h) = h

-- The digest's length tells which one it is.
abbrev pub with_digest : Text → FileHashes → Option FileHashes
with_digest digest h =
    if length digest == 32
    then some (record h { md5 = digest })
    else if length digest == 40
    then some (record h { sha1 = digest })
    else if length digest == 64
    then some (record h { sha256 = digest })
    else none

abbrev pub insert_some : Text → Option FileHashes → Dict FileHashes → Dict FileHashes
insert_some filename none files = files
insert_some filename (some h) files = insert filename h files

abbrev pub file_line : Option ℕ → Text → Text → Dict FileHashes → Dict FileHashes
file_line none digest filename files = files
file_line (some size) digest filename files =
    insert_some filename
      (with_digest digest (record (or_no_hashes (lookup filename files)) { size = size })) files

abbrev pub file_parts : List Text → Dict FileHashes → Dict FileHashes
file_parts (digest ∷ size ∷ filename ∷ []) files = file_line (parse_size size) digest filename files
file_parts _ files = files

-- One round of the loop over the lines.
unfoldable pub read_line : Text → Dict FileHashes → Dict FileHashes
unfolding fields parse_size lookup insert
read_line [] files = files
read_line (c ∷ cs) files =
    if c == b' ' || c == b'\t' then file_parts (fields (c ∷ cs)) files else files

unfoldable pub read_lines : List Text → Dict FileHashes → Dict FileHashes
unfolding read_line
read_lines [] files = files
read_lines (line ∷ rest) files = read_lines rest (read_line line files)

abbrev pub words_of : Option Text → List Text
words_of none = []
words_of (some value) = fields value

abbrev pub is_yes : Option Text → Bool
is_yes none = false
is_yes (some value) = equal (to_lower (trim is_space value)) (codes "yes")

-- `ParseRelease`, which never fails.
unfoldable pub parse_release : Text → Text → Release
unfolding new_release release_field read_lines fields equal to_lower trim unix_lines split
parse_release clock input = record (new_release clock no_options) {
  codename = pointer_value (release_field input (codes "Codename"));
  origin = release_field input (codes "Origin");
  suite = release_field input (codes "Suite");
  by_hash = is_yes (release_field input (codes "Acquire-By-Hash"));
  architectures = words_of (release_field input (codes "Architectures"));
  components = words_of (release_field input (codes "Components"));
  files = read_lines (split b'\n' (unix_lines input)) [];
}

-- `Filename`
unfoldable pub release_filename : Text → Text
unfolding join_path
release_filename codename = join_path (codes "dists" ∷ codename ∷ codes "Release" ∷ [])

abbrev pub spaces : ℕ → Text
spaces zero = []
spaces (suc n) = b' ' ∷ spaces n

-- `%16d`
abbrev pub padded : Text → Text
padded digits = spaces (16 - length digits) ++ digits

-- ` %s %16d %s\n`
abbrev pub hash_line : Text → FileHashes → Text → Text
hash_line digest h filename =
    b' ' ∷ (digest ++ (b' ' ∷ (padded (decimal h.size) ++ (b' ' ∷ (filename ++ (b'\n' ∷ []))))))

unfoldable pub write_release_hashes : (FileHashes → Text) → Dict FileHashes → Text
unfolding decimal
write_release_hashes hash [] = []
write_release_hashes hash ((filename, h) ∷ rest) =
    hash_line (hash h) h filename ++ write_release_hashes hash rest

-- The files in ascending order of their names.
unfoldable pub sorted_files : Dict FileHashes → Dict FileHashes
unfolding sort_by
sorted_files = sort_by (λ (f : Text × FileHashes). f.0)

abbrev pub render_dated : Release → Text → Text
render_dated r date =
    write_optional_field (codes "Origin") r.origin
    ++ (write_field (codes "Codename") r.codename
        ++ (write_field (codes "Date") date
            ++ (write_field (codes "Architectures") (join (codes " ") r.architectures)
                ++ (write_field (codes "Components") (join (codes " ") r.components)
                    ++ (write_field (codes "Suite") (pointer_value r.suite)
                        ++ ((if r.by_hash
                              then write_field (codes "Acquire-By-Hash") (codes "yes")
                              else [])
                            ++ (codes "MD5Sum:\n"
                                ++ (write_release_hashes (λ h. h.md5) (sorted_files r.files)
                                    ++ (codes "SHA1:\n"
                                        ++ (write_release_hashes (λ h. h.sha1)
                                              (sorted_files r.files)
                                            ++ (codes "SHA256:\n"
                                                ++ write_release_hashes (λ h. h.sha256)
                                                    (sorted_files r.files))))))))))))

abbrev pub render_at_date : Release → Option Text → Result Text
render_at_date r none = err (failed no_clock)
render_at_date r (some date) = ok (render_dated r date)

-- `Render`
unfoldable pub render : Release → Result Text
unfolding write_field write_release_hashes sorted_files join
render r = render_at_date r r.now

unfoldable pub append_unique : List Text → Text → List Text
unfolding contains
append_unique values value = if contains values value then values else values ++ value ∷ []

unfoldable pub add_files : Dict FileHashes → Dict FileHashes → Dict FileHashes
unfolding insert
add_files files [] = files
add_files files ((filename, h) ∷ rest) = add_files (insert filename h files) rest

-- `UpdateManifest`
unfoldable pub update_manifest : Release → Manifest → Release
unfolding append_unique add_files
update_manifest r m = record r {
  components = append_unique r.components m.options.component;
  architectures = append_unique r.architectures m.options.architecture;
  files = add_files r.files m.files;
}

module _ {S : Type 0} (store : Store S) (clock : Text) where
  abbrev set_or : Option Text → Option Text → Option Text
  set_or none old = old
  set_or (some value) old = some value

  abbrev flag_or : Option Bool → Bool → Bool
  flag_or none old = old
  flag_or (some b) old = b

  abbrev with_options : ReleaseOptions → Release → Release
  with_options o r = record r {
    now = some (or_text clock o.now);
    codename = o.codename;
    origin = set_or o.origin r.origin;
    suite = set_or o.suite r.suite;
    by_hash = flag_or o.by_hash r.by_hash;
    cache_control = o.cache_control;
    signer = o.signer;
  }

  abbrev retrieved_release : ReleaseOptions → Result Text → Result Release
  retrieved_release o (ok text) = ok (with_options o (parse_release clock text))
  retrieved_release o (err e) = if is_not_found e then ok (new_release clock o) else err (wrapped e)

  -- `RetrieveRelease`: a Release that is not there is an empty one.
  unfoldable pub retrieve_release : ReleaseOptions → Exec S Release
  unfolding parse_release new_release release_filename
  retrieve_release o s =
      let (text, s') = store.get (release_filename o.codename) s in (retrieved_release o text, s')
