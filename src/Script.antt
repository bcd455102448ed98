-- ===== src/Script.antt =====
-- script/script.go: scripts, their headers and the reading of a script from its text.
pub mod Bounds
pub mod Scanner
pub mod Header
pub mod Fields
pub mod Items
pub mod Directory
pub mod Print
pub mod RoundTrip
use msgscript.Base.{
  ℕ, Bool, true, false, ◌||◌, List, [], ◌∷◌, ◌++◌, Option, none, some, Bytes, text, equal, Result,
  ok, err, panic, wrap_err, if◌then◌else◌,
}
use msgscript.Base.Strings.{trim_suffix}
use Scanner.{scan_lines}
use Header.{header_key, header_value}

-- A nil `LibKeys` and an empty one are the same list here.
pub record Script : Type 0 where
  pub content : Bytes
  pub executor : Bytes
  pub html : Bool
  pub lib_keys : List Bytes
  pub name : Bytes
  pub subject : Bytes

-- `new(Script)`
abbrev pub new_script : Script
new_script = record {
  content = [];
  executor = [];
  html = false;
  lib_keys = [];
  name = [];
  subject = [];
}

-- `strconv.ParseBool`; `none` is its error.
pub parse_bool : Bytes → Option Bool
parse_bool v =
    if equal v (text "1")
      || equal v (text "t")
      || equal v (text "T")
      || equal v (text "TRUE")
      || equal v (text "true")
      || equal v (text "True")
    then some true
    else if equal v (text "0")
        || equal v (text "f")
        || equal v (text "F")
        || equal v (text "FALSE")
        || equal v (text "false")
        || equal v (text "False")
    then some false
    else none

-- `s.HTML, err = strconv.ParseBool(v)`, and false where that fails
unfoldable pub html_value : Bytes → Bool
unfolding parse_bool
html_value v = elim (parse_bool v) [ none ↦ false | some b ↦ b ]

-- The variables of the loop of `Read`: the script and the builder `b`.
pub record Reading : Type 0 where
  pub script : Script
  pub builder : Bytes

-- The `switch k` of `Read`.
pub read_header : Reading → Bytes → Bytes → Bytes → Reading
read_header r line k v =
    if equal k (text "subject")
    then record r { script = record r.script { subject = v } }
    else if equal k (text "name")
    then record r { script = record r.script { name = v } }
    else if equal k (text "require")
    then record r { script = record r.script { lib_keys = r.script.lib_keys ++ v ∷ [] } }
    else if equal k (text "html")
    then record r { script = record r.script { html = html_value v } }
    else if equal k (text "executor")
    then record r { script = record r.script { executor = v } }
    else record r { builder = r.builder ++ (line ++ b'\n' ∷ []) }

unfoldable pub read_line : Reading → Bytes → Reading
unfolding read_header
read_line r line = read_header r line (header_key line) (header_value line)

-- `for scanner.Scan() { … }`
unfoldable pub read_lines : Reading → List Bytes → Reading
unfolding read_line
read_lines r [] = r
read_lines r (line ∷ lines) = read_lines (read_line r line) lines

-- `Read`. The builder never fails, so neither does the method.
unfoldable pub read : Script → Bytes → Script
unfolding read_lines
read s input =
    let r = read_lines (record { script = s; builder = [] }) (scan_lines input) in
    record r.script { content = trim_suffix b'\n' r.builder }

-- `ReadString`
abbrev pub read_string : Bytes → Script
read_string content = read new_script content

-- `ReadFile`, given what opening and reading the file returns.
unfoldable pub read_file : Bytes → Result Bytes → Result Script
read_file filename (ok content) = ok (read_string content)
read_file filename (err e) = err (text "failed to open file " ++ (filename ++ (text ": " ++ e)))
read_file filename panic = panic
