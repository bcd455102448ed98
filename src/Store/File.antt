-- ===== src/Store/File.antt =====
-- store/file.go: the store of the server's default backend, two `sync.Map`s.
pub mod Laws
use msgscript.Base.{
  Bool, true, false, List, [], ◌∷◌, ◌++◌, Option, none, some, Bytes, text, Result, ok, err,
}
use msgscript.Base.GoMap
use msgscript.Base.GoMap.{GoMap}
use msgscript.Script.{Script}
use msgscript.Script.Directory.{ScriptMap, names_of}
use msgscript.Store.Interface.{ScriptStore}
use msgscript.Store.Maps.{delete_name, found_libraries, write_scripts}

-- `filePath` is left out: nothing sets it.
pub record FileStore : Type 0 where
  pub scripts : ScriptMap
  pub libs : GoMap Bytes

abbrev pub new_file_store : FileStore
new_file_store = record { scripts = []; libs = [] }

-- An empty map is stored first where the subject has none.
ensure_subject : Bytes → ScriptMap → ScriptMap
ensure_subject subject scripts = elim (GoMap.lookup subject scripts) [
  | none ↦ GoMap.insert subject [] scripts
  | some _ ↦ scripts
]

-- `AddScript`
unfoldable pub file_add : Bytes → Bytes → Script → FileStore → FileStore
unfolding ensure_subject
file_add subject name scr f =
    let scripts = ensure_subject subject f.scripts in
    record f {
      scripts = GoMap.insert subject (GoMap.insert name scr (names_of subject scripts)) scripts;
    }

-- `DeleteScript`
unfoldable pub file_delete : Bytes → Bytes → FileStore → FileStore
file_delete subject name f = record f { scripts = delete_name subject name f.scripts }

-- `GetScripts`
unfoldable pub file_get : Bytes → FileStore → Result (GoMap Script)
file_get subject f = elim (GoMap.lookup subject f.scripts) [
  | none ↦ err (text "script not found for subject: " ++ subject)
  | some names ↦ ok names
]

abbrev pub file_store : ScriptStore
file_store = record {
  State = FileStore;
  add_script = λ subject name scr f. (ok tt, file_add subject name scr f);
  delete_script = λ subject name f. (ok tt, file_delete subject name f);
  get_scripts = file_get;
  release_lock = λ path f. (ok tt, f);
  take_lock = λ path f. (ok true, f);
  list_subjects = λ f. ok (GoMap.keys f.scripts);
  load_librairies = λ paths f. ok (found_libraries f.libs paths);
  add_library = λ content path f. (ok tt, record f { libs = GoMap.insert path content f.libs });
  remove_library = λ path f. (ok tt, record f { libs = GoMap.delete path f.libs });
  backend_name = text "file";
  write_through = λ subject key g f. record f { scripts = write_scripts subject key g f.scripts };
}
