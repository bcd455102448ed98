-- ===== src/Store/Loading.antt =====
-- store/store.go: `StoreByName` for the file backend, which reads the scripts and libraries of two
-- folders into a new file store.
pub mod Lookup
use msgscript.Base.{
  Bool, true, false, List, [], ◌∷◌, ◌++◌, Bytes, text, equal, Result, ok, err, panic, ◌>>=◌,
  wrap_err, if◌then◌else◌,
}
use msgscript.Base.GoMap
use msgscript.Base.GoMap.{GoMap}
use msgscript.Script.{Script}
use msgscript.Script.Directory.{DirEntry, ScriptMap, read_script_directory, read_library_directory}
use msgscript.Store.File.{FileStore, new_file_store, file_add}

-- What `filepath.Abs` and `os.ReadDir` return.
pub record Folders : Type 0 where
  pub absolute : Bytes → Result Bytes
  pub read_dir : Bytes → Result (List DirEntry)

-- `for name, scr := range namedScripts`
unfoldable pub load_names : Bytes → GoMap Script → FileStore → FileStore
load_names subject [] f = f
load_names subject ((name, scr) ∷ names) f = load_names subject names (file_add subject name scr f)

-- `for subject, namedScripts := range allScripts`
unfoldable pub load_scripts : ScriptMap → FileStore → FileStore
load_scripts [] f = f
load_scripts ((subject, names) ∷ scripts) f = load_scripts scripts (load_names subject names f)

-- `for _, library := range allLibrairies`
unfoldable pub load_libraries : List Script → FileStore → FileStore
load_libraries [] f = f
load_libraries (l ∷ ls) f =
    load_libraries ls (record f { libs = GoMap.insert l.name l.content f.libs })

-- On an error the path that `filepath.Abs` returned is empty, and it has the name of the argument.
absolute_dir : Result Bytes → Result Bytes
absolute_dir (ok dir) = ok dir
absolute_dir (err e) = err (text "failed to convert script directory  to an aboslute")
absolute_dir panic = panic

with_libraries : Folders → Bytes → FileStore → Result FileStore
with_libraries folders library_dir f =
    let loaded : Result FileStore = (do
      libraries ←
          wrap_err (text "failed to read library directory: ")
            (read_library_directory library_dir (folders.read_dir library_dir))
      ok (load_libraries libraries f)) in
    if equal library_dir [] then ok f else loaded

-- `StoreByName("file", …)`
unfoldable pub open_file_store : Folders → Bytes → Bytes → Result FileStore
unfolding absolute_dir with_libraries load_libraries
open_file_store folders script_dir library_dir =
    let opened : Result FileStore = (do
      dir ← absolute_dir (folders.absolute script_dir)
      scripts ←
          wrap_err (text "failed to read scripts: ")
            (read_script_directory dir (folders.read_dir dir))
      with_libraries folders library_dir (load_scripts scripts new_file_store)) in
    if equal script_dir [] then err (text "script directory cannot be empty") else opened
