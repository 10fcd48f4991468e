-- ===== src/Signing/Quoting.antt =====
-- internal/signing/gpg.go: texts that `ParseOptions` reads back.
use deb_s.Prelude.{
  ◌≡◌, refl, ◌∙◌, true, false, List, [], ◌∷◌, ◌++◌, append-nil, append_assoc, Text, codes, ok,
}
use deb_s.Storage.Key.{backslash}
use deb_s.Signing.{Scan, flush, scan_character, scan_all, finish_scan, parse_options}

abbrev escaped_all : Text → Text
escaped_all [] = []
escaped_all (c ∷ cs) = backslash ∷ c ∷ escaped_all cs

-- An option with a backslash before each character, or a pair of quotes where it is empty.
abbrev pub quoted : Text → Text
quoted [] = codes "''"
quoted (c ∷ cs) = escaped_all (c ∷ cs)

abbrev pub command_line : List Text → Text
command_line [] = []
command_line (t ∷ ts) = quoted t ++ (codes " " ++ command_line ts)

scan_all-append : (a b : Text) (s : Scan) → scan_all (a ++ b) s ≡ scan_all b (scan_all a s)
unfolding scan_all
scan_all-append [] b s = refl
scan_all-append (c ∷ a) b s = scan_all-append a b (scan_character c s)

abbrev within : List Text → Text → Scan
within options current = record {
  options = options;
  current = current;
  quote = 0;
  escaped = false;
  have_token = true;
}

abbrev between : List Text → Scan
between options = record {
  options = options;
  current = [];
  quote = 0;
  escaped = false;
  have_token = false;
}

scan_escaped :
    (options : List Text) (t current : Text)
    → scan_all (escaped_all t) (within options current) ≡ within options (current ++ t)
unfolding scan_all scan_character
scan_escaped options [] current = rw append-nil refl
scan_escaped options (c ∷ cs) current =
    scan_escaped options cs (current ++ c ∷ []) ∙ rw append_assoc refl

scan_quoted :
    (options : List Text) (t : Text) → scan_all (quoted t) (between options) ≡ within options t
unfolding scan_all scan_character
scan_quoted options [] = refl
scan_quoted options (c ∷ cs) = scan_escaped options cs (c ∷ [])

scan_command_line :
    (ts options : List Text)
    → scan_all (command_line ts) (between options) ≡ between (options ++ ts)
unfolding scan_all scan_character flush
scan_command_line [] options = rw append-nil refl
scan_command_line (t ∷ ts) options =
    scan_all-append (quoted t) (codes " " ++ command_line ts) (between options)
    ∙ rw (scan_quoted options t) (scan_command_line ts (options ++ t ∷ []) ∙ rw append_assoc refl)

-- ParseOptions gives back any list of options that was written with a backslash before each
-- character, or as a pair of quotes where an option is empty, and a space behind each option.
pub parse_options-command_line :
    (options : List Text) → parse_options (command_line options) ≡ ok options
unfolding parse_options finish_scan flush
parse_options-command_line options = rw (scan_command_line options []) refl
