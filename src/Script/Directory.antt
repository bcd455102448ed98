-- ===== src/Script/Directory.antt =====
-- `ReadScriptDirectory` and `ReadLibraryDirectory`. The file system enters as the listing of the
-- directory and, with each entry, what opening and reading the file returns.
pub mod Lookup
pub mod Distinct
use msgscript.Base.{
  ℕ, Bool, true, false, List, [], ◌∷◌, ◌++◌, Option, none, some, Bytes, text, equal, Result, ok,
  err, ◌>>=◌, wrap_err, if◌then◌else◌,
}
use msgscript.Base.GoMap
use msgscript.Base.GoMap.{GoMap}
use msgscript.Base.Paths.{ext, join_path}
use msgscript.Base.Strings.{contains}
use msgscript.Script.{Script, read_file}

-- An entry of `os.ReadDir`.
pub record DirEntry : Type 0 where
  pub name : Bytes
  pub file : Result Bytes

-- A call of the function that `fs.WalkDir` is given.
pub record WalkEntry : Type 0 where
  pub filename : Bytes
  pub walk_err : Option Bytes
  pub file : Result Bytes

-- subject, then name
abbrev pub ScriptMap : Type 0
ScriptMap = GoMap (GoMap Script)

unfoldable pub is_lua : Bytes → Bool
is_lua filename = equal (ext filename) (text ".lua")

-- `if _, e := scripts[s.Subject]; !e { … make … }`
abbrev pub names_of : Bytes → ScriptMap → GoMap Script
names_of subject scripts = elim (GoMap.lookup subject scripts) [ none ↦ [] | some names ↦ names ]

unfoldable pub add_script : Script → ScriptMap → ScriptMap
add_script s scripts =
    GoMap.insert s.subject (GoMap.insert s.name s (names_of s.subject scripts)) scripts

unfoldable pub read_script : Bytes → Bytes → Result Bytes → Result Script
read_script dirname filename file =
    let fullname = join_path dirname filename in
    wrap_err (text "failed to read script " ++ (fullname ++ text ": ")) (read_file fullname file)

read_entry : Bytes → DirEntry → ScriptMap → Result ScriptMap
read_entry dirname e scripts =
    if is_lua e.name
    then (do s ← read_script dirname e.name e.file; ok (add_script s scripts))
    else ok scripts

pub read_entries : Bytes → List DirEntry → ScriptMap → Result ScriptMap
unfolding read_entry
read_entries dirname [] scripts = ok scripts
read_entries dirname (e ∷ es) scripts = do
  scripts' ← read_entry dirname e scripts
  read_entries dirname es scripts'

-- `ReadScriptDirectory(dirname, false)`
unfoldable pub read_script_directory : Bytes → Result (List DirEntry) → Result ScriptMap
unfolding read_entries
read_script_directory dirname listing = do
  entries ← wrap_err (text "failed to read directory: ") listing
  read_entries dirname entries []

abbrev pub is_library : Bytes → Bool
is_library filename = contains filename (text "libs/")

-- The two required headers of a script that was found by a walk.
require_headers : Script → Result Script
require_headers s =
    if equal s.subject []
    then err (text "script required to have a 'subject' header")
    else if equal s.name []
    then err (text "script required to have a 'name' header")
    else ok s

walk_file : Bytes → WalkEntry → ScriptMap → Result ScriptMap
unfolding require_headers
walk_file dirname e scripts =
    if is_lua e.filename
    then if is_library e.filename then ok scripts else (do
      s ← read_script dirname e.filename e.file
      t ← require_headers s
      ok (add_script t scripts))
    else ok scripts

walk_entry : Bytes → WalkEntry → ScriptMap → Result ScriptMap
unfolding walk_file
walk_entry dirname e scripts = elim e.walk_err [
  | some failure ↦ err failure
  | none ↦ walk_file dirname e scripts
]

pub walk_entries : Bytes → List WalkEntry → ScriptMap → Result ScriptMap
unfolding walk_entry
walk_entries dirname [] scripts = ok scripts
walk_entries dirname (e ∷ es) scripts = do
  scripts' ← walk_entry dirname e scripts
  walk_entries dirname es scripts'

-- `ReadScriptDirectory(dirname, true)`
unfoldable pub walk_script_directory : Bytes → List WalkEntry → Result ScriptMap
unfolding walk_entries
walk_script_directory dirname entries =
    wrap_err (text "failed to walk directory " ++ (dirname ++ text ": "))
      (walk_entries dirname entries [])

read_libraries : Bytes → List DirEntry → List Script → Result (List Script)
read_libraries dirname [] libraries = ok libraries
read_libraries dirname (e ∷ es) libraries = do
  libraries' ←
      if is_lua e.name
      then (do s ← read_script dirname e.name e.file; ok (libraries ++ s ∷ []))
      else ok libraries
  read_libraries dirname es libraries'

-- `ReadLibraryDirectory`
pub read_library_directory : Bytes → Result (List DirEntry) → Result (List Script)
unfolding read_libraries
read_library_directory dirname listing = do
  entries ← wrap_err (text "failed to read directory: ") listing
  read_libraries dirname entries []
