-- ===== src/Apt/Package/Parse.antt =====
-- internal/apt/package.go: `ParsePackage`. `versionPattern` is written out as its scan.
use deb_s.Prelude.{
  ◌||◌, Option, none, some, List, [], ◌∷◌, ◌++◌, ◌==◌, if◌then◌else◌, Text, codes, equal, Result,
  ok, err, failed, no_version, bad_version, and_then, cut, span, is_digit, contains_byte,
  trim_prefix,
}
use deb_s.Apt.Control.{Field, Paragraph, take, parse_paragraph}
use deb_s.Apt.Dependency.{parse_dependencies}
use deb_s.Apt.Package.{Package, new_package, normalize_extra_field_name, set_extra_field}

-- The groups of `versionPattern`: the epoch, the version and the iteration.
abbrev pub version_groups : Text → Option (Text × Text) → Text → Text × Text × Text
version_groups epoch none rest = (epoch, rest, [])
version_groups epoch (some (version, iteration)) rest = (epoch, version, iteration)

-- A version of at least one byte, up to the first dash behind that byte.
abbrev pub upstream : Text → Text → Text × Text × Text
upstream epoch [] = (epoch, [], [])
upstream epoch (c ∷ cs) = elim (cut b'-' cs) [
  | none ↦ (epoch, c ∷ cs, [])
  | some (version, iteration) ↦ (epoch, c ∷ version, iteration)
]

-- Digits and a colon in front are the epoch, if something follows them.
abbrev pub epoch_of : Text → Text × Text → Text × Text × Text
epoch_of full ([], rest) = upstream [] full
epoch_of full (d ∷ ds, []) = upstream [] full
epoch_of full (d ∷ ds, c ∷ []) = upstream [] full
epoch_of full (d ∷ ds, c ∷ r ∷ rest) =
    if c == b':' then upstream (d ∷ ds) (r ∷ rest) else upstream [] full

-- `versionPattern.FindStringSubmatch`: `.` does not match a line feed.
unfoldable pub match_version : Text → Option (Text × Text × Text)
unfolding equal contains_byte span cut
match_version full =
    if equal full [] || contains_byte full 10
    then none
    else some (epoch_of full (span is_digit full))

-- `requireField`
abbrev pub required : Option Text × Paragraph → Result (Text × Paragraph)
required (none, p) = err (failed no_version)
required (some [], p) = err (failed no_version)
required (some (c ∷ cs), p) = ok (c ∷ cs, p)

abbrev pub or_default : Text → Option Text → Text
or_default default none = default
or_default default (some value) = value

abbrev pub parsed_dependencies : Option Text → List Text
parsed_dependencies none = []
parsed_dependencies (some depends) = parse_dependencies depends

abbrev pub add_extra_fields : List Field → List Field → List Field
add_extra_fields extra [] = extra
add_extra_fields extra (f ∷ fs) =
    add_extra_fields (set_extra_field (record f { name = normalize_extra_field_name f.name }) extra)
      fs

-- The fields that are taken out of the paragraph, in the order of the code.
unfoldable pub fill : Package → Paragraph → Package
unfolding take parse_dependencies normalize_extra_field_name set_extra_field
fill pack p0 =
    let (architecture, p1) = take (codes "Architecture") p0 in
    let (category, p2) = take (codes "Section") p1 in
    let (license, p3) = take (codes "License") p2 in
    let (maintainer, p4) = take (codes "Maintainer") p3 in
    let (name, p5) = take (codes "Package") p4 in
    let (homepage, p6) = take (codes "Homepage") p5 in
    let (vendor, p7) = take (codes "Vendor") p6 in
    let (priority, p8) = take (codes "Priority") p7 in
    let (origin, p9) = take (codes "Origin") p8 in
    let (installed_size, p10) = take (codes "Installed-Size") p9 in
    let (index_filename, p11) = take (codes "Filename") p10 in
    let (sha1, p12) = take (codes "SHA1") p11 in
    let (sha256, p13) = take (codes "SHA256") p12 in
    let (md5, p14) = take (codes "MD5sum") p13 in
    let (size, p15) = take (codes "Size") p14 in
    let (description, p16) = take (codes "Description") p15 in
    let (depends, p17) = take (codes "Depends") p16 in
    let (recommends, p18) = take (codes "Recommends") p17 in
    let (suggests, p19) = take (codes "Suggests") p18 in
    let (enhances, p20) = take (codes "Enhances") p19 in
    let (pre_depends, p21) = take (codes "Pre-Depends") p20 in
    let (breaks, p22) = take (codes "Breaks") p21 in
    let (conflicts, p23) = take (codes "Conflicts") p22 in
    let (provides, p24) = take (codes "Provides") p23 in
    let (replaces, p25) = take (codes "Replaces") p24 in
    record pack {
      name = or_default [] name;
      architecture = or_default [] architecture;
      maintainer = or_default [] maintainer;
      category = or_default [] category;
      license = or_default pack.license license;
      vendor = or_default pack.vendor vendor;
      homepage = homepage;
      origin = origin;
      priority = priority;
      installed_size = installed_size;
      description = description;
      index_filename = index_filename;
      size = size;
      sha1 = sha1;
      sha256 = sha256;
      md5 = md5;
      dependencies = parsed_dependencies depends;
      pre_depends = pre_depends;
      recommends = recommends;
      suggests = suggests;
      enhances = enhances;
      breaks = breaks;
      conflicts = conflicts;
      provides = provides;
      replaces = replaces;
      extra_fields = add_extra_fields pack.extra_fields p25.fields;
    }

abbrev pub versioned : Text → Text → Option (Text × Text × Text) → Result Package
versioned maintainer full none = err (failed bad_version)
versioned maintainer full (some (epoch, version, iteration)) = ok (record (new_package maintainer) {
  epoch = epoch;
  version = version;
  iteration = iteration;
  iteration_present =
      contains_byte (if equal epoch [] then full else trim_prefix full (epoch ++ b':' ∷ [])) b'-';
})

unfoldable pub parse_package : Text → Text → Result Package
unfolding parse_paragraph take match_version fill contains_byte equal trim_prefix
parse_package maintainer input =
    and_then (required (take (codes "Version") (parse_paragraph input))) λ (full, paragraph).
      and_then (versioned maintainer full (match_version full)) λ pack. ok (fill pack paragraph)
