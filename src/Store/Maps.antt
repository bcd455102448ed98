-- ===== src/Store/Maps.antt =====
-- What the two stores in memory do with their maps.
pub mod Laws
use msgscript.Base.{List, [], ◌∷◌, Option, none, some, Bytes}
use msgscript.Base.GoMap
use msgscript.Base.GoMap.{GoMap}
use msgscript.Script.{Script}
use msgscript.Script.Directory.{ScriptMap, names_of}

-- `delete(s.scripts[subject], name)`: nothing where the subject has no map.
unfoldable pub delete_name : Bytes → Bytes → ScriptMap → ScriptMap
delete_name subject name scripts = elim (GoMap.lookup subject scripts) [
  | none ↦ scripts
  | some names ↦ GoMap.insert subject (GoMap.delete name names) scripts
]

-- The libraries found, in the order of the paths; a missing one is passed over.
unfoldable pub found_libraries : GoMap Bytes → List Bytes → List Bytes
found_libraries libraries [] = []
found_libraries libraries (path ∷ paths) =
    let rest = found_libraries libraries paths in
    elim (GoMap.lookup path libraries) [ none ↦ rest | some l ↦ l ∷ rest ]

-- A script is changed where it stands: the maps hold pointers.
unfoldable pub write_scripts : Bytes → Bytes → (Script → Script) → ScriptMap → ScriptMap
write_scripts subject key f scripts = elim (GoMap.lookup key (names_of subject scripts)) [
  | none ↦ scripts
  | some s ↦ GoMap.insert subject (GoMap.insert key (f s) (names_of subject scripts)) scripts
]
