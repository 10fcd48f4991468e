-- ===== src/Signing.antt =====
-- internal/signing/gpg.go: the options of gpg, and what `Sign` asks of gpg and of the file system.
pub mod Gpg
pub mod Quoting
pub mod Verified
mod Tests
use deb_s.Prelude.{
  ℕ, Bool, true, false, not, ◌&&◌, ◌||◌, ◌==◌, List, [], ◌∷◌, ◌++◌, if◌then◌else◌, Text, is_space,
  Result, ok, err, failed, bad_options,
}
use deb_s.Storage.Key.{backslash}

abbrev pub single_quote : ℕ
single_quote = 39

abbrev pub double_quote : ℕ
double_quote = 34

-- The variables of `ParseOptions`; `quote` is 0 outside quotes.
pub record Scan : Type 0 where
  pub options : List Text
  pub current : Text
  pub quote : ℕ
  pub escaped : Bool
  pub have_token : Bool

abbrev pub no_scan : Scan
no_scan = record { options = []; current = []; quote = 0; escaped = false; have_token = false }

unfoldable pub flush : Scan → Scan
flush s =
    if s.have_token
    then record s { options = s.options ++ s.current ∷ []; current = []; have_token = false }
    else s

abbrev write : ℕ → Scan → Scan
write c s = record s { current = s.current ++ c ∷ []; have_token = true }

-- One character.
unfoldable pub scan_character : ℕ → Scan → Scan
unfolding flush
scan_character c s =
    if s.escaped
    then record (write c s) { escaped = false }
    else if c == backslash && not (s.quote == single_quote)
    then record s { escaped = true; have_token = true }
    else if not (s.quote == 0)
    then (if c == s.quote then record s { quote = 0; have_token = true } else write c s)
    else if c == single_quote || c == double_quote
    then record s { quote = c; have_token = true }
    else if is_space c
    then flush s
    else write c s

unfoldable pub scan_all : Text → Scan → Scan
unfolding scan_character
scan_all [] s = s
scan_all (c ∷ cs) s = scan_all cs (scan_character c s)

unfoldable pub finish_scan : Scan → Result (List Text)
unfolding flush
finish_scan s =
    if s.escaped
    then err (failed bad_options)
    else if not (s.quote == 0)
    then err (failed bad_options)
    else ok (flush s).options

-- `ParseOptions`
unfoldable pub parse_options : Text → Result (List Text)
unfolding scan_all finish_scan
parse_options input = finish_scan (scan_all input no_scan)
