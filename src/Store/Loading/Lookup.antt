-- ===== src/Store/Loading/Lookup.antt =====
-- What a file store holds that was read from folders.
use msgscript.Base.{
  Bool, true, false, ◌&&◌, List, [], ◌∷◌, Option, none, some, ◌≡◌, refl, ◌∙◌, arith, Bytes, text,
  equal, equal_iff, Result, ok, err, panic, ◌>>=◌, wrap_err, >>=-eq-ok, wrap_err-eq-ok,
  if◌then◌else◌,
}
use msgscript.Base.GoMap
use msgscript.Base.GoMap.{GoMap, Distinct, lookup-insert, lookup-nil}
use msgscript.Script.{Script}
use msgscript.Script.Directory.{DirEntry, ScriptMap, read_script_directory, read_library_directory}
use msgscript.Script.Directory.Lookup.{
  lookup_script, last_script, lua_scripts, read_script_directory-lookup,
}
use msgscript.Script.Directory.Distinct.{IsDistinct, read_script_directory-IsDistinct}
use msgscript.Store.File.{FileStore, new_file_store, file_add}
use msgscript.Store.File.Laws.{file_view, file_store-Refines}
use msgscript.Store.Loading.{
  Folders, load_names, load_scripts, load_libraries, with_libraries, open_file_store,
}

-- The second, where the first is `none`.
abbrev or_else : Option Script → Option Script → Option Script
or_else none o = o
or_else (some s) o = some s

-- What stands under a subject and a name, in a map that is added to a store.
abbrev found_in : Option (GoMap Script) → Bytes → Option Script
found_in none i = none
found_in (some names) i = GoMap.lookup i names

file_view-file_add :
    (subject name j i : Bytes) (s : Script) (f : FileStore)
    → file_view (file_add subject name s f) j i
      ≡ (if equal subject j && equal name i then some s else file_view f j i)
file_view-file_add subject name j i s f =
    file_store-Refines.view_add subject name j i s f tt tt tt refl

file_view-load_names :
    (subject j i : Bytes) (names : GoMap Script) (f : FileStore)
    → Distinct names
    → file_view (load_names subject names f) j i ≡ (
        if equal subject j
        then or_else (GoMap.lookup i names) (file_view f j i)
        else file_view f j i)
unfolding load_names GoMap.lookup
file_view-load_names subject j i [] f d = ground arith
file_view-load_names subject j i ((name, s) ∷ names) f d = ground (
  arith,
  file_view-load_names subject j i names (file_add subject name s f) d.1,
  file_view-file_add subject name j i s f,
  equal_iff name i,
  d.0,
)

file_view-load_scripts :
    (j i : Bytes) (m : ScriptMap) (f : FileStore)
    → IsDistinct m
    → file_view (load_scripts m f) j i ≡ or_else (found_in (GoMap.lookup j m) i) (file_view f j i)
unfolding load_scripts GoMap.lookup
file_view-load_scripts j i [] f d = refl
file_view-load_scripts j i ((subject, names) ∷ m) f d = ground (
  arith,
  file_view-load_scripts j i m (load_names subject names f) (d.0.1, d.1.1),
  file_view-load_names subject j i names f d.1.0,
  equal_iff subject j,
  d.0.0,
)

file_view-load_libraries :
    (j i : Bytes) (ls : List Script) (f : FileStore)
    → file_view (load_libraries ls f) j i ≡ file_view f j i
unfolding load_libraries
file_view-load_libraries j i [] f = refl
file_view-load_libraries j i (l ∷ ls) f =
    file_view-load_libraries j i ls (record f { libs = GoMap.insert l.name l.content f.libs })

with_loaded-view :
    (j i : Bytes) (f f' : FileStore) (library_dir : Bytes) (libraries : Result (List Script))
    → (if equal library_dir [] then ok f else (do ls ← libraries; ok (load_libraries ls f))) ≡ ok f'
    → file_view f' j i ≡ file_view f j i
with_loaded-view j i f f' library_dir (ok ls) h = ground (arith, file_view-load_libraries j i ls f)
with_loaded-view j i f f' library_dir (err e) h = ground arith
with_loaded-view j i f f' library_dir panic h = ground arith

with_libraries-view :
    (folders : Folders) (library_dir j i : Bytes) (f f' : FileStore)
    → with_libraries folders library_dir f ≡ ok f'
    → file_view f' j i ≡ file_view f j i
unfolding with_libraries
with_libraries-view folders library_dir j i f f' h =
    let libraries =
      wrap_err (text "failed to read library directory: ")
        (read_library_directory library_dir (folders.read_dir library_dir)) in
    with_loaded-view j i f f' library_dir libraries h

else-ok :
    (b : Bool) (e : Bytes) (r : Result FileStore) {f : FileStore}
    → (if b then err e else r) ≡ ok f
    → r ≡ ok f
else-ok true e r h = cc
else-ok false e r h = h

or_else-new :
    (subject name : Bytes) (m : ScriptMap)
    → or_else (found_in (GoMap.lookup subject m) name) (file_view new_file_store subject name)
      ≡ lookup_script subject name m
unfolding lookup_script GoMap.lookup
or_else-new subject name m = ground arith

-- Where the script folder has an absolute path and can be listed, a file store that was opened
-- holds, under a subject and a name, the last script of that folder with them, and none where no
-- `.lua` file of the folder has them; the libraries change none of that.
pub open_file_store-lookup :
    (folders : Folders) (script_dir library_dir dir : Bytes) (entries : List DirEntry)
    (f : FileStore) (subject name : Bytes)
    → folders.absolute script_dir ≡ ok dir
    → folders.read_dir dir ≡ ok entries
    → open_file_store folders script_dir library_dir ≡ ok f
    → file_view f subject name ≡ last_script subject name none (lua_scripts dir entries)
unfolding open_file_store
open_file_store-lookup folders script_dir library_dir dir entries f subject name found listed h =
    let opened : (do
      scripts ← wrap_err (text "failed to read scripts: ") (read_script_directory dir (ok entries))
      with_libraries folders library_dir (load_scripts scripts new_file_store))
        ≡ ok f =
      rw (found, listed) at (else-ok (equal script_dir []) _ _ h) in
    let (scripts, read, loaded) =
      >>=-eq-ok (wrap_err _ (read_script_directory dir (ok entries))) _ opened in
    let read_all = wrap_err-eq-ok _ (read_script_directory dir (ok entries)) read in
    with_libraries-view folders library_dir subject name (load_scripts scripts new_file_store) f
      loaded
    ∙ file_view-load_scripts subject name scripts new_file_store
        (read_script_directory-IsDistinct dir entries scripts read_all)
    ∙ or_else-new subject name scripts
    ∙ read_script_directory-lookup dir entries scripts subject name read_all
