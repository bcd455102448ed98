-- ===== src/Store/Dev.antt =====
-- store/dev.go: the store of the CLI, in memory.
pub mod Laws
pub mod Opening
use msgscript.Base.{
  ℕ, Bool, true, false, List, [], ◌∷◌, ◌++◌, Option, none, some, Bytes, text, equal, Result, ok,
  err, if◌then◌else◌,
}
use msgscript.Base.GoMap
use msgscript.Base.GoMap.{GoMap}
use msgscript.Script.{Script}
use msgscript.Script.Directory.{ScriptMap, names_of}
use msgscript.Store.Maps.{delete_name, found_libraries, write_scripts}
use msgscript.Store.Interface.{ScriptStore}

pub record DevStore : Type 0 where
  pub scripts : ScriptMap
  pub libraries : GoMap Bytes

abbrev pub new_dev_store : DevStore
new_dev_store = record { scripts = []; libraries = [] }

-- `onChange` with `del` unset
unfoldable pub on_put : Bytes → Bytes → Script → DevStore → DevStore
on_put subject name scr s = record s {
  scripts = GoMap.insert subject (GoMap.insert name scr (names_of subject s.scripts)) s.scripts;
}

-- `onChange` with `del` set
unfoldable pub on_delete : Bytes → Bytes → DevStore → DevStore
on_delete subject name s = record s { scripts = delete_name subject name s.scripts }

abbrev pub dev_store : ScriptStore
dev_store = record {
  State = DevStore;
  add_script = λ subject name scr s. (ok tt, on_put subject name scr s);
  delete_script = λ subject name s. (ok tt, on_delete subject name s);
  get_scripts = λ subject s. ok (names_of subject s.scripts);
  release_lock = λ path s. (ok tt, s);
  take_lock = λ path s. (ok true, s);
  list_subjects = λ s. ok (GoMap.keys s.scripts);
  load_librairies = λ paths s. ok (found_libraries s.libraries paths);
  add_library =
      λ content path s. (ok tt, record s { libraries = GoMap.insert path content s.libraries });
  remove_library = λ path s. (ok tt, record s { libraries = GoMap.delete path s.libraries });
  backend_name = text "dev";
  write_through = λ subject key f s. record s { scripts = write_scripts subject key f s.scripts };
}
