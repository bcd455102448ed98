-- ===== src/Cli.antt =====
-- cmd/cli: the commands that add, remove and list the scripts of a store. What a command prints is a
-- list of texts; the help and the logging are left out.
pub mod Adding
pub mod Listing
pub mod Libraries
pub mod Dev
pub mod Proxy
pub mod Commands
pub mod Cobra
pub mod Registration
use msgscript.Base.{
  Bool, true, false, List, [], ◌∷◌, ◌++◌, Option, none, some, Bytes, text, equal, Result, ok, err,
  panic, ◌>>=◌, wrap_err, if◌then◌else◌, last_or,
}
use msgscript.Base.GoMap
use msgscript.Base.GoMap.{GoMap}
use msgscript.Base.Strings.{split}
use msgscript.Script.{Script, read_file}
use msgscript.Store.Interface.{ScriptStore}

-- `validateArgIsPath`, given what `os.Stat` returns.
unfoldable pub validate_arg_is_path : (Bytes → Option Bytes) → List Bytes → Option Bytes
validate_arg_is_path stat_error (filename ∷ []) = elim (stat_error filename) [
  | none ↦ none
  | some e ↦ some (text "invalid filename " ++ (filename ++ (text ": " ++ e)))
]
validate_arg_is_path stat_error args = some (text "a single path to a lua file is required")

-- A flag, or else the header of the script; the last text is the message for neither.
unfoldable pub flag_or_header : Bytes → Bytes → Bytes → Result Bytes
flag_or_header flag header missing =
    if equal flag [] then if equal header [] then err missing else ok header else ok flag

-- The flags `subject` and `name` of a command.
pub record Names : Type 0 where
  pub subject : Bytes
  pub name : Bytes

-- The subject and the name under which a script is added.
unfoldable pub script_names : Names → Script → Bytes → Result Names
script_names flags scr newline = do
  subject ← flag_or_header flags.subject scr.subject (text "subject is required" ++ newline)
  name ← flag_or_header flags.name scr.name (text "name is required" ++ newline)
  ok (record { subject = subject; name = name })

-- The rows of the table: a subject and the last segment of a key.
unfoldable pub last_segment : Bytes → Bytes
last_segment name = last_or [] (split b'/' name)

-- What `list` shows: a message, or the rows of a table.
pub data Shown : Type 0 where
  message : Bytes → Shown
  rows : List (Bytes × Bytes) → Shown

-- `for subject, names := range subjectScriptNames`
unfoldable pub rows_of_names : Bytes → List Bytes → List (Bytes × Bytes)
rows_of_names subject [] = []
rows_of_names subject (name ∷ names) = (subject, last_segment name) ∷ rows_of_names subject names

unfoldable pub table_rows : GoMap (List Bytes) → List (Bytes × Bytes)
table_rows [] = []
table_rows ((subject, names) ∷ entries) = rows_of_names subject names ++ table_rows entries

-- `for name := range scripts`
unfoldable pub append_names : Bytes → List Bytes → GoMap (List Bytes) → GoMap (List Bytes)
append_names subject [] shown = shown
append_names subject (name ∷ names) shown =
    let before : List Bytes = elim (GoMap.lookup subject shown) [ none ↦ [] | some b ↦ b ] in
    append_names subject names (GoMap.insert subject (before ++ name ∷ []) shown)

module _ (store : ScriptStore) where
  -- Behind `AddScript`.
  added : Names → Result (Unit {0}) × store.State → Result Bytes × store.State
  added names (ok _, st) = (
    ok (
        text "Script added successfully for subject "
        ++ (names.subject ++ (text " named " ++ (names.name ++ text " \n")))),
    st,
  )
  added names (err e, st) = (ok (text "Failed to add script to etcd: " ++ e), st)
  added names (panic, st) = (panic, st)

  add_named : Script → Result Names → store.State → Result Bytes × store.State
  add_named scr (ok names) st = added names (store.add_script names.subject names.name scr st)
  add_named scr (err e) st = (ok e, st)
  add_named scr panic st = (panic, st)

  add_read : Names → Bytes → Result Script → store.State → Result Bytes × store.State
  add_read flags filename (ok scr) st = add_named scr (script_names flags scr []) st
  add_read flags filename (err e) st =
      (ok (text "failed to read the script file " ++ (filename ++ (text ": " ++ e))), st)
  add_read flags filename panic st = (panic, st)

  -- `addCmdRun`, on a store that `StoreByName` opened: what it prints
  unfoldable pub add_cmd_run :
      Names → Bytes → Result Bytes → store.State → Result Bytes × store.State
  unfolding add_read add_named added
  add_cmd_run flags filename file st = add_read flags filename (read_file filename file) st

  removed : Result (Unit {0}) × store.State → Result (List Bytes) × store.State
  removed (ok _, st) = (ok (text "Script removed\n" ∷ []), st)
  removed (err e, st) =
      (ok ((text "failed to remove script: " ++ e) ∷ text "Script removed\n" ∷ []), st)
  removed (panic, st) = (panic, st)

  -- `rmCmdRun`
  unfoldable pub rm_cmd_run : Names → store.State → Result (List Bytes) × store.State
  unfolding removed
  rm_cmd_run flags st = removed (store.delete_script flags.subject flags.name st)

  -- `for _, subject := range subjects`
  unfoldable pub collect_names :
      List Bytes → GoMap (List Bytes) → store.State → Result (GoMap (List Bytes))
  collect_names [] shown st = ok shown
  collect_names (subject ∷ subjects) shown st = do
    scripts ←
        wrap_err (text "failed to get scripts for subject " ++ (subject ++ text ": "))
          (store.get_scripts subject st)
    collect_names subjects (append_names subject (GoMap.keys scripts) shown) st

  show_subjects : List Bytes → store.State → Result Shown
  show_subjects [] st = ok (message (text "No script in store\n"))
  show_subjects (subject ∷ subjects) st = do
    shown ← collect_names (subject ∷ subjects) [] st
    ok (rows (table_rows shown))

  unfoldable pub list_rows : store.State → Result Shown
  unfolding show_subjects
  list_rows st = do
    subjects ← wrap_err (text "failed to get subjects from store: ") (store.list_subjects st)
    show_subjects subjects st

  -- `listCmdRun`; an error is printed
  unfoldable pub list_cmd_run : store.State → Result Shown
  list_cmd_run st = elim (list_rows st) [
    | ok shown ↦ ok shown
    | err e ↦ ok (message e)
    | panic ↦ panic
  ]
