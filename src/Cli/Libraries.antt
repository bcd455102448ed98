-- ===== src/Cli/Libraries.antt =====
-- cmd/cli/cmd_lib_add.go: the libraries that are read from files and folders, and the command that
-- adds them to a store.
pub mod Folders
use msgscript.Base.{
  ℕ, Bool, true, false, List, [], ◌∷◌, ◌++◌, Option, none, some, Bytes, text, equal, Result, ok,
  err, panic, ◌>>=◌, wrap_err, if◌then◌else◌, length,
}
use msgscript.Base.Paths.{join_path}
use msgscript.Script.{Script, read_file}
use msgscript.Script.Directory.{WalkEntry, is_lua}
use msgscript.Store.Interface.{ScriptStore}

-- What `os.Stat` says of a path (whether it is a folder), what opening and reading gives, the names
-- that `os.ReadDir` finds, and the calls that `fs.WalkDir` makes.
pub record Files : Type 0 where
  pub stat : Bytes → Result Bool
  pub content : Bytes → Result Bytes
  pub read_dir : Bytes → Result (List Bytes)
  pub walk : Bytes → List WalkEntry

-- The scripts that the walk appends until the function that it is given fails; the caller does not
-- look at the error.
unfoldable pub walked_libraries : Bytes → List WalkEntry → List Script
walked_libraries fname [] = []
walked_libraries fname (e ∷ es) =
    let rest = walked_libraries fname es in
    let read : List Script = elim (read_file (join_path fname e.filename) e.file) [
      | ok s ↦ s ∷ rest
      | _ ↦ []
    ] in
    elim e.walk_err [ some failure ↦ [] | none ↦ if is_lua e.filename then read else rest ]

-- The loop over the entries of a folder. It reads the folder itself for each of them.
unfoldable pub folder_libraries : Files → Bytes → List Bytes → Result (List Script)
folder_libraries files fname [] = ok []
folder_libraries files fname (name ∷ names) =
    let rest = folder_libraries files fname names in
    let read : Result (List Script) = (do
      s ←
          wrap_err (text "failed to read script " ++ (join_path fname name ++ text ": "))
            (read_file fname (files.content fname))
      scripts ← rest
      ok (s ∷ scripts)) in
    if is_lua name then read else rest

unfoldable pub named_library : Bytes → Script → Result Script
named_library fname s =
    if equal s.name []
    then err (text "script at " ++ (fname ++ text " requires to have the 'name' header"))
    else ok s

-- A path that is no folder.
unfoldable pub single_library : Files → Bytes → Result Script
single_library files fname = do
  s ←
      wrap_err (text "failed to read file " ++ (fname ++ text ": "))
        (read_file fname (files.content fname))
  named_library fname s

-- What one path adds.
unfoldable pub libraries_at : Files → Bool → Bytes → Bool → Result (List Script)
libraries_at files true fname true = ok (walked_libraries fname (files.walk fname))
libraries_at files false fname true = do
  names ← wrap_err (text "failed to read directory: ") (files.read_dir fname)
  folder_libraries files fname names
libraries_at files recursive fname false = do s ← single_library files fname; ok (s ∷ [])

-- `parseDirsForLibraries`
unfoldable pub parse_dirs_for_libraries : Files → Bool → List Bytes → Result (List Script)
parse_dirs_for_libraries files recursive [] = ok []
parse_dirs_for_libraries files recursive (fname ∷ dirnames) = do
  is_dir ← wrap_err (text "failed to stat " ++ (fname ++ text ": ")) (files.stat fname)
  here ← libraries_at files recursive fname is_dir
  rest ← parse_dirs_for_libraries files recursive dirnames
  ok (here ++ rest)

module _ (store : ScriptStore) where
  -- `for _, lib := range libraries`: the libraries before the first that the store refuses.
  unfoldable pub add_libraries : List Script → store.State → Result (Unit {0}) × store.State
  add_libraries [] st = (ok tt, st)
  add_libraries (lib ∷ libs) st =
      let (r, st') = store.add_library lib.content lib.name st in
      let rest = add_libraries libs st' in
      elim r [
        | ok _ ↦ rest
        | err e ↦ (
          err (text "failed to add library " ++ (lib.name ++ (text " to the store: " ++ e))),
          st',
        )
        | panic ↦ (panic, st')
      ]

  -- `libAddRun`, on a store that `StoreByName` opened: the error that it prints, or the number of
  -- libraries.
  unfoldable pub lib_add_run : Files → Bool → List Bytes → store.State → Result ℕ × store.State
  lib_add_run files recursive dirnames st =
      elim (wrap_err (text "failed to parse directories for librairies: ")
        (parse_dirs_for_libraries files recursive dirnames)) [
          | ok libraries ↦
              let (r, st') = add_libraries libraries st in ((do _ ← r; ok (length libraries)), st')
          | err e ↦ (err e, st)
          | panic ↦ (panic, st)
        ]
