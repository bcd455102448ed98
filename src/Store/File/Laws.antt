-- ===== src/Store/File/Laws.antt =====
-- The file store is the abstract store, with an error for a subject that it does not know.
use msgscript.Base.{Option, [], ◌≡◌, arith, Bytes, equal_iff, equal_ne, ◌≢◌, refl, some, ok}
use msgscript.Base.GoMap
use msgscript.Base.GoMap.{GoMap, lookup-insert, lookup-insert_self, lookup-nil}
use msgscript.Script.{Script}
use msgscript.Script.Directory.{ScriptMap, names_of}
use msgscript.Script.Directory.Lookup.{lookup_script}
use msgscript.Store.File.{FileStore, file_store, file_add, file_delete, file_get, ensure_subject}
use msgscript.Store.Interface.{Refines}
use msgscript.Store.Maps.Laws.{lookup_script-put, lookup_script-delete_name}

abbrev pub file_view : FileStore → Bytes → Bytes → Option Script
file_view st subject name = lookup_script subject name st.scripts

-- The empty map that is stored first changes no lookup.
lookup_script-ensure_subject :
    (subject j i : Bytes) (scripts : ScriptMap)
    → lookup_script j i (ensure_subject subject scripts) ≡ lookup_script j i scripts
unfolding lookup_script ensure_subject
lookup_script-ensure_subject subject j i scripts =
    ground
      (arith, lookup-insert subject j [] scripts, lookup-nil {V = Script} i, equal_iff subject j)

-- In the file store, adding or deleting a script changes what is stored under that subject and
-- name and nothing else, and the map of a subject holds just what is stored under it.
pub file_store-Refines : Refines file_store (λ _. Unit) (λ _. Unit) file_view (λ subject name. name)
unfolding file_add file_delete file_get lookup_script
file_store-Refines = record {
  view_add = λ subject name j i s st _ _ _ _.
      let scripts = ensure_subject subject st.scripts in
      simp (
        lookup_script-put subject name j i scripts s,
        lookup_script-ensure_subject subject j i st.scripts,
      );
  view_delete = λ subject name j i st _ _ _. lookup_script-delete_name subject name j i st.scripts;
  get_view = λ subject name st m _ h. ground arith;
}

-- Behind `AddScript` the subject is known: `GetScripts` succeeds, and its map holds the script under
-- its name and every other script of the subject as before.
pub file_get-file_add :
    (subject name : Bytes) (s : Script) (st : FileStore)
    → (m : GoMap Script) × (file_get subject (file_add subject name s st) ≡ ok m)
      × (GoMap.lookup name m ≡ some s)
      × ((other : Bytes) → name ≢ other → GoMap.lookup other m ≡ file_view st subject other)
unfolding file_get file_add
file_get-file_add subject name s st =
    let scripts = ensure_subject subject st.scripts in
    (
      GoMap.insert name s (names_of subject scripts),
      rw
          (
            lookup-insert_self subject (GoMap.insert name s (names_of subject scripts)) scripts,
            file_get,
          )
          refl,
      lookup-insert_self name s (names_of subject scripts),
      λ other ne.
          rw (lookup-insert name other s (names_of subject scripts), equal_ne name other ne)
            (unfold lookup_script in lookup_script-ensure_subject subject subject other st.scripts),
    )
