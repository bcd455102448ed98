-- ===== src/Script/Directory/Lookup.antt =====
-- What the maps of a read directory hold.
use msgscript.Base.{
  Bool, true, false, List, [], ◌∷◌, Option, none, some, ◌≡◌, ◌≢◌, refl, arith, Bytes, equal,
  equal_iff, Result, ok, err, panic, ◌>>=◌, if◌then◌else◌, ◌&&◌, not, All, >>=-eq-ok, ◌∙◌, ap,
}
use msgscript.Base.GoMap
use msgscript.Base.GoMap.{GoMap, map_laws, lookup-insert, lookup-nil}
use msgscript.Script.{Script}
use msgscript.Script.Directory.{
  DirEntry, WalkEntry, ScriptMap, is_lua, names_of, add_script, read_script, read_entry,
  read_entries, read_script_directory, is_library, require_headers, walk_file, walk_entry,
  walk_entries, walk_script_directory,
}

-- `scripts[subject][name]`
unfoldable pub lookup_script : Bytes → Bytes → ScriptMap → Option Script
lookup_script subject name scripts = GoMap.lookup name (names_of subject scripts)

pub lookup_script-add_script :
    (subject name : Bytes) (s : Script) (scripts : ScriptMap)
    → lookup_script subject name (add_script s scripts) ≡ (
        if equal s.subject subject && equal s.name name
        then some s
        else lookup_script subject name scripts)
unfolding lookup_script add_script
lookup_script-add_script subject name s scripts = ground (
  arith,
  lookup-insert s.subject subject (GoMap.insert s.name s (names_of s.subject scripts)) scripts,
  lookup-insert s.name name s (names_of s.subject scripts),
  equal_iff s.subject subject,
)

lookup_script-nil : (subject name : Bytes) → lookup_script subject name [] ≡ none
unfolding lookup_script GoMap.lookup
lookup_script-nil subject name = refl

-- The last script of a list with the subject and name, or what is given where there is none.
unfoldable pub last_script : Bytes → Bytes → Option Script → List Script → Option Script
last_script subject name found [] = found
last_script subject name found (s ∷ ss) =
    last_script subject name
      (if equal s.subject subject && equal s.name name then some s else found) ss

-- The scripts of the `.lua` files that can be read.
unfoldable pub lua_scripts : Bytes → List DirEntry → List Script
lua_scripts dirname [] = []
lua_scripts dirname (e ∷ es) =
    let rest = lua_scripts dirname es in
    if is_lua e.name
    then elim (read_script dirname e.name e.file) [ ok s ↦ s ∷ rest | _ ↦ rest ]
    else rest

-- One entry of the loop, whatever is read after it.
entry-last_script :
    (subject name : Bytes) (lua : Bool) (r : Result Script) (rest : List Script)
    (scripts scripts' : ScriptMap)
    → (if lua then (do s ← r; ok (add_script s scripts)) else ok scripts) ≡ ok scripts'
    → last_script subject name (lookup_script subject name scripts') rest
      ≡ last_script subject name
          (lookup_script subject name scripts)
          (if lua then elim r [ ok s ↦ s ∷ rest | _ ↦ rest ] else rest)
unfolding last_script
entry-last_script subject name false r rest scripts scripts' h = ground arith
entry-last_script subject name true (ok s) rest scripts scripts' h =
    ground (arith, lookup_script-add_script subject name s scripts)
entry-last_script subject name true (err e) rest scripts scripts' h = cc
entry-last_script subject name true panic rest scripts scripts' h = cc

read_entries-lookup :
    (dirname : Bytes) (es : List DirEntry) (scripts result : ScriptMap) (subject name : Bytes)
    → read_entries dirname es scripts ≡ ok result
    → lookup_script subject name result
      ≡ last_script subject name (lookup_script subject name scripts) (lua_scripts dirname es)
unfolding read_entries last_script lua_scripts read_entry
read_entries-lookup dirname [] scripts result subject name h = ground arith
read_entries-lookup dirname (e ∷ es) scripts result subject name h =
    let (scripts', first, rest) = >>=-eq-ok (read_entry dirname e scripts) _ h in
    read_entries-lookup dirname es scripts' result subject name rest
    ∙ entry-last_script subject name (is_lua e.name) (read_script dirname e.name e.file) _ scripts
        scripts' first

-- After a directory was read, the script under a subject and name is the last of its `.lua` files
-- with that subject and name; there is none where no such file has them.
pub read_script_directory-lookup :
    (dirname : Bytes) (entries : List DirEntry) (result : ScriptMap) (subject name : Bytes)
    → read_script_directory dirname (ok entries) ≡ ok result
    → lookup_script subject name result
      ≡ last_script subject name none (lua_scripts dirname entries)
unfolding read_script_directory
read_script_directory-lookup dirname entries result subject name h =
    read_entries-lookup dirname entries [] result subject name h
    ∙ ap (λ o. last_script subject name o (lua_scripts dirname entries)) (lookup_script-nil _ _)

-- The files of a walk that are scripts: `.lua`, and in no library folder.
unfoldable pub walk_scripts : Bytes → List WalkEntry → List Script
walk_scripts dirname [] = []
walk_scripts dirname (e ∷ es) =
    let rest = walk_scripts dirname es in
    if is_lua e.filename && not (is_library e.filename)
    then elim (read_script dirname e.filename e.file) [ ok s ↦ s ∷ rest | _ ↦ rest ]
    else rest

-- Both required headers are there.
abbrev pub HasHeaders : Script → Type 0
HasHeaders s = (s.subject ≢ []) × (s.name ≢ [])

required-HasHeaders :
    (s : Script) (scripts scripts' : ScriptMap)
    → (require_headers s >>= λ t. ok (add_script t scripts)) ≡ ok scripts'
    → HasHeaders s × (add_script s scripts ≡ scripts')
unfolding require_headers
required-HasHeaders s scripts scripts' h =
    ground (arith, equal_iff s.subject [], equal_iff s.name [])

walked-last_script :
    (subject name : Bytes) (lua library : Bool) (r : Result Script) (rest : List Script)
    (scripts scripts' : ScriptMap)
    → (if lua
        then if library
          then ok scripts
          else (do s ← r; t ← require_headers s; ok (add_script t scripts))
        else ok scripts)
      ≡ ok scripts'
    → let found = if lua && not library then elim r [ ok s ↦ s ∷ rest | _ ↦ rest ] else rest in
      (last_script subject name (lookup_script subject name scripts') rest
        ≡ last_script subject name (lookup_script subject name scripts) found)
      × (All HasHeaders rest → All HasHeaders found)
unfolding last_script require_headers
walked-last_script subject name false library r rest scripts scripts' h = (ground arith, λ a. a)
walked-last_script subject name true true r rest scripts scripts' h = (ground arith, λ a. a)
walked-last_script subject name true false (ok s) rest scripts scripts' h =
    let (headers, e) = required-HasHeaders s scripts scripts' h in
    (ground (arith, e, lookup_script-add_script subject name s scripts), λ a. (headers, a))
walked-last_script subject name true false (err e) rest scripts scripts' h = cc
walked-last_script subject name true false panic rest scripts scripts' h = cc

walk_entry-walk_file :
    (dirname : Bytes) (e : WalkEntry) (scripts scripts' : ScriptMap)
    → walk_entry dirname e scripts ≡ ok scripts'
    → walk_file dirname e scripts ≡ ok scripts'
unfolding walk_entry
walk_entry-walk_file dirname e scripts scripts' h = ground arith

walk_entries-lookup :
    (dirname : Bytes) (es : List WalkEntry) (scripts result : ScriptMap) (subject name : Bytes)
    → walk_entries dirname es scripts ≡ ok result
    → (lookup_script subject name result
        ≡ last_script subject name (lookup_script subject name scripts) (walk_scripts dirname es))
      × All HasHeaders (walk_scripts dirname es)
unfolding walk_entries last_script walk_scripts
walk_entries-lookup dirname [] scripts result subject name h = (ground arith, tt)
walk_entries-lookup dirname (e ∷ es) scripts result subject name h =
    let (scripts', first, rest) = >>=-eq-ok (walk_entry dirname e scripts) _ h in
    let (found, headers) = walk_entries-lookup dirname es scripts' result subject name rest in
    let (same, more) =
      walked-last_script subject name (is_lua e.filename) (is_library e.filename)
        (read_script dirname e.filename e.file) _ scripts scripts'
        (unfold walk_file in walk_entry-walk_file dirname e scripts scripts' first) in
    (found ∙ same, more headers)

-- After a walk, each script that it read has a subject and a name, and the script under a subject
-- and name is the last that the walk read with them; files in a library folder are left out.
pub walk_script_directory-lookup :
    (dirname : Bytes) (entries : List WalkEntry) (result : ScriptMap) (subject name : Bytes)
    → walk_script_directory dirname entries ≡ ok result
    → (lookup_script subject name result
        ≡ last_script subject name none (walk_scripts dirname entries))
      × All HasHeaders (walk_scripts dirname entries)
unfolding walk_script_directory
walk_script_directory-lookup dirname entries result subject name h =
    let walked : walk_entries dirname entries [] ≡ ok result = ground arith in
    let (found, headers) = walk_entries-lookup dirname entries [] result subject name walked in
    (
      found
          ∙ ap (λ o. last_script subject name o (walk_scripts dirname entries))
              (lookup_script-nil subject name),
      headers,
    )
