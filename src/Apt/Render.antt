-- ===== src/Apt/Render.antt =====
-- internal/apt/package_render.go: a package as a paragraph of a Packages index.
use deb_s.Prelude.{
  Bool, Option, none, some, List, [], ◌∷◌, ◌++◌, reverse, if◌then◌else◌, Text, codes, equal, split,
  join, trim, is_space, Result, ok, and_then,
}
use deb_s.Apt.Control.{Field}
use deb_s.Apt.Dependency.{normalize_dependency}
use deb_s.Apt.Package.{Package, full_version, repository_filename}

-- Empty lines at the end are dropped; the lines come in reverse order.
abbrev pub drop_empty : List Text → List Text
drop_empty [] = []
drop_empty ([] ∷ ts) = drop_empty ts
drop_empty ((c ∷ cs) ∷ ts) = (c ∷ cs) ∷ ts

unfoldable pub split_value_lines : Text → List Text
unfolding split
split_value_lines [] = []
split_value_lines (c ∷ cs) = reverse (drop_empty (reverse (split b'\n' (c ∷ cs))))

-- A continuation line.
unfoldable pub folded : Text → Text
unfolding equal trim
folded line = if equal (trim is_space line) [] then codes " .\n" else b' ' ∷ (line ++ b'\n' ∷ [])

unfoldable pub folded_lines : List Text → Text
unfolding folded
folded_lines [] = []
folded_lines (t ∷ ts) = folded t ++ folded_lines ts

abbrev pub written_lines : Text → List Text → Text
written_lines name [] = name ++ codes ": \n"
written_lines name (t ∷ ts) = name ++ (codes ": " ++ (t ++ (b'\n' ∷ folded_lines ts)))

-- What `writeField` appends to the output.
unfoldable pub write_field : Text → Text → Text
unfolding split_value_lines folded_lines
write_field name value = written_lines name (split_value_lines value)

abbrev pub write_optional_field : Text → Option Text → Text
write_optional_field name none = []
write_optional_field name (some value) = write_field name value

abbrev pub pointer_value : Option Text → Text
pointer_value none = []
pointer_value (some value) = value

abbrev pub or_text : Text → Option Text → Text
or_text default none = default
or_text default (some value) = value

-- The dependencies and the conflicts after `normalizeDependency`.
unfoldable pub normalized : Bool → List Text → List Text × List Text
unfolding equal normalize_dependency
normalized ignore_iteration [] = ([], [])
normalized ignore_iteration (d ∷ ds) =
    let (found, conflict) = normalize_dependency d ignore_iteration in
    let rest = normalized ignore_iteration ds in
    (found ++ rest.0, (if equal conflict [] then rest.1 else conflict ∷ rest.1))

abbrev pub with_conflicts : Option Text → List Text → List Text
with_conflicts none conflicts = conflicts
with_conflicts (some c) conflicts = c ∷ conflicts

abbrev pub write_conflicts : List Text → Text
write_conflicts [] = []
write_conflicts (c ∷ cs) = write_field (codes "Conflicts") (join (codes ", ") (c ∷ cs))

abbrev pub write_depends : Package → List Text → Text
write_depends p dependencies = elim p.dependencies [
  | [] ↦ []
  | d ∷ ds ↦
      if p.no_depends then [] else write_field (codes "Depends") (join (codes ", ") dependencies)
]

unfoldable pub write_extra_fields : List Field → Text
write_extra_fields [] = []
write_extra_fields (f ∷ fs) = write_field f.name f.value ++ write_extra_fields fs

-- The lines in the order of `Render`.
unfoldable pub render_at : Package → Text → Text
unfolding normalized write_extra_fields join
render_at p repository_filename =
    let (dependencies, expanded) = normalized p.ignore_iteration_in_dependencies p.dependencies in
    write_field (codes "Package") p.name
    ++ (write_field (codes "Version") (full_version p)
        ++ (write_field (codes "License") p.license
            ++ (write_field (codes "Vendor") p.vendor
                ++ (write_field (codes "Architecture") p.architecture
                    ++ (write_field (codes "Maintainer") p.maintainer
                        ++ (write_field (codes "Installed-Size") (pointer_value p.installed_size)
                            ++ (write_depends p dependencies
                                ++ (write_conflicts (with_conflicts p.conflicts expanded)
                                    ++ (write_optional_field (codes "Breaks") p.breaks
                                        ++ (write_optional_field (codes "Pre-Depends") p.pre_depends
                                            ++ (write_optional_field (codes "Provides") p.provides
                                                ++ (write_optional_field (codes "Replaces")
                                                      p.replaces
                                                    ++ (write_optional_field (codes "Recommends")
                                                          p.recommends
                                                        ++ (write_optional_field (codes "Suggests")
                                                            p.suggests
                                                            ++ (write_optional_field
                                                            (codes "Enhances") p.enhances
                                                            ++ (write_field (codes "Section")
                                                            p.category
                                                            ++ (write_optional_field
                                                            (codes "Origin") p.origin
                                                            ++ (write_field (codes "Priority")
                                                            (pointer_value p.priority)
                                                            ++ (write_field (codes "Homepage") (
                                                            or_text
                                                            (codes "http://nourlgiven.example.com/")
                                                            p.homepage)
                                                            ++ (write_field (codes "Filename")
                                                            repository_filename
                                                            ++ (write_optional_field (codes "Size")
                                                            p.size
                                                            ++ (write_optional_field (codes "SHA1")
                                                            p.sha1
                                                            ++ (write_optional_field
                                                            (codes "SHA256") p.sha256
                                                            ++ (write_optional_field
                                                            (codes "MD5sum") p.md5
                                                            ++ (write_field (codes "Description") (
                                                            or_text (codes "no description given")
                                                            p.description)
                                                            ++ write_extra_fields
                                                            p.extra_fields)))))))))))))))))))))))))

unfoldable pub render : Package → Text → Result Text
unfolding render_at full_version repository_filename write_field
render p codename = and_then (repository_filename p codename) λ filename. ok (render_at p filename)
