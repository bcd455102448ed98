-- ===== src/Store/Dev/Opening.antt =====
-- store/dev.go: `NewDevStore`, which reads the libraries of a folder into a new store, and
-- `WatchScripts`.
use msgscript.Base.{
  Bool, true, false, List, [], ◌∷◌, ◌++◌, Option, none, some, Bytes, text, equal, Result, ok, err,
  ◌>>=◌, wrap_err, if◌then◌else◌, ◌&&◌, ◌≡◌, ◌≢◌, sym, ap, ◌∙◌, arith, equal_ne, >>=-eq-ok,
  wrap_err-eq-ok,
}
use msgscript.Base.GoMap
use msgscript.Base.GoMap.{GoMap, lookup-insert}
use msgscript.Base.Paths.{ext}
use msgscript.Base.Strings.{remove_first}
use msgscript.Script.Directory.{WalkEntry, is_lua}
use msgscript.Store.Dev.{DevStore, new_dev_store}

-- The name of a library: its path without the folder and without the extension, each removed where
-- it stands first.
unfoldable pub library_name : Bytes → Bytes → Bytes
library_name library_path filename =
    remove_first (ext filename) (remove_first library_path filename)

-- A call of the function that `fs.WalkDir` is given.
unfoldable pub load_entry : Bytes → WalkEntry → DevStore → Result DevStore
unfolding library_name
load_entry library_path e st =
    let read : Result DevStore = (do
      content ← wrap_err (text "failed to read " ++ (e.filename ++ text ": ")) e.file
      ok (record st {
        libraries = GoMap.insert (library_name library_path e.filename) content st.libraries;
      })) in
    elim e.walk_err [
      | some failure ↦ err failure
      | none ↦ if is_lua e.filename then read else ok st
    ]

unfoldable pub load_entries : Bytes → List WalkEntry → DevStore → Result DevStore
load_entries library_path [] st = ok st
load_entries library_path (e ∷ es) st = do
  st' ← load_entry library_path e st
  load_entries library_path es st'

-- Behind `os.Stat`, which says whether the path is a folder.
load_folder : Bytes → Bool → List WalkEntry → Result DevStore
load_folder library_path true entries =
    wrap_err
      (text "failed to walk through directory " ++ (library_path ++ text " for library files: "))
      (load_entries library_path entries new_dev_store)
load_folder library_path false entries =
    err (text "given library path " ++ (library_path ++ text " isn't a directory"))

-- `NewDevStore`
unfoldable pub open_dev_store : Bytes → Result Bool → List WalkEntry → Result DevStore
unfolding load_folder
open_dev_store library_path stat entries =
    let opened : Result DevStore = (do
      is_dir ← wrap_err (text "failed to read library path " ++ (library_path ++ text ": ")) stat
      load_folder library_path is_dir entries) in
    if equal library_path [] then ok new_dev_store else opened

-- The call of `onChange` that `WatchScripts` makes: the subject, the name, the script (nil here) and
-- whether it was deleted.
abbrev pub dev_watch_scripts : Bytes → Bytes × Bytes × Option Bytes × Bool
dev_watch_scripts subject = (subject, [], none, false)

-- What the folder holds under a library's name: the content of the last file of that name, or what
-- was there before.
abbrev pub library_in : Bytes → List WalkEntry → Bytes → Option Bytes → Option Bytes
library_in library_path [] k before = before
library_in library_path (e ∷ es) k before = library_in library_path es k (
    if is_lua e.filename && equal (library_name library_path e.filename) k
    then elim e.file [ ok content ↦ some content | _ ↦ before ]
    else before)

load_entry-lookup :
    (library_path : Bytes) (e : WalkEntry) (k : Bytes) (st st' : DevStore)
    → load_entry library_path e st ≡ ok st'
    → GoMap.lookup k st'.libraries
      ≡ library_in library_path (e ∷ []) k (GoMap.lookup k st.libraries)
unfolding load_entry
load_entry-lookup library_path e k st st' h =
    grind (arith, lookup-insert {V = Bytes} (library_name library_path e.filename) k)

load_entries-lookup :
    (library_path : Bytes) (es : List WalkEntry) (k : Bytes) (st st' : DevStore)
    → load_entries library_path es st ≡ ok st'
    → GoMap.lookup k st'.libraries ≡ library_in library_path es k (GoMap.lookup k st.libraries)
unfolding load_entries
load_entries-lookup library_path [] k st st' h =
    ap (λ r. elim r [ ok s ↦ GoMap.lookup k s.libraries | _ ↦ GoMap.lookup k st.libraries ]) (sym h)
load_entries-lookup library_path (e ∷ es) k st st' h =
    let (mid, hm, h') = >>=-eq-ok (load_entry library_path e st) _ h in
    load_entries-lookup library_path es k mid st' h'
    ∙ ap (library_in library_path es k) (load_entry-lookup library_path e k st mid hm)

-- A development store that was opened with a folder holds, under each name, the content of the last
-- Lua file of the folder to which `library_name` gives that name, and nothing under any other name.
pub open_dev_store-lookup :
    (library_path : Bytes) (entries : List WalkEntry) (st : DevStore)
    → library_path ≢ []
    → open_dev_store library_path (ok true) entries ≡ ok st
    → (k : Bytes) → GoMap.lookup k st.libraries ≡ library_in library_path entries k none
unfolding open_dev_store load_folder GoMap.lookup
open_dev_store-lookup library_path entries st ne h k =
    load_entries-lookup library_path entries k new_dev_store st
      (wrap_err-eq-ok _ _ (rw (equal_ne library_path [] ne) at h))
