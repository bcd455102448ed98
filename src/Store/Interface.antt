-- ===== src/Store/Interface.antt =====
-- The interface `ScriptStore` of store/store.go, and what it promises of the scripts.
use msgscript.Base.{
  Bool, ◌&&◌, List, Option, none, some, ◌≡◌, Bytes, equal, Result, ok, if◌then◌else◌,
}
use msgscript.Base.GoMap
use msgscript.Base.GoMap.{GoMap}
use msgscript.Script.{Script}

-- A method takes the store and returns it beside its result.
pub record ScriptStore : Type 1 where
  pub State : Type 0
  pub add_script : Bytes → Bytes → Script → State → Result (Unit {0}) × State
  pub delete_script : Bytes → Bytes → State → Result (Unit {0}) × State
  pub get_scripts : Bytes → State → Result (GoMap Script)
  pub release_lock : Bytes → State → Result (Unit {0}) × State
  pub take_lock : Bytes → State → Result Bool × State
  pub list_subjects : State → Result (List Bytes)
  pub load_librairies : List Bytes → State → Result (List Bytes)
  pub add_library : Bytes → Bytes → State → Result (Unit {0}) × State
  pub remove_library : Bytes → State → Result (Unit {0}) × State
  pub backend_name : Bytes
  -- What a write through a pointer that `GetScripts` returned, under a subject and a key of the
  -- map, does to the store.
  pub write_through : Bytes → Bytes → (Script → Script) → State → State

-- The abstract store is a function from subject and name to the script. `view` reads it off the
-- state, `entry_key` is the key that `GetScripts` gives a name, and `Valid` says which subjects
-- the backend keeps apart, `Storable` which scripts it gives back as they were.
pub record Refines (store : ScriptStore) (Valid : Bytes → Type 0) (Storable : Script → Type 0)
    (view : store.State → Bytes → Bytes → Option Script) (entry_key : Bytes → Bytes → Bytes)
    : Type 0 where
  pub view_add :
      (subject name j i : Bytes) (s : Script) (st : store.State)
      → Valid subject
      → Valid j
      → Storable s
      → (store.add_script subject name s st).0 ≡ ok tt
      → view (store.add_script subject name s st).1 j i
        ≡ (if equal subject j && equal name i then some s else view st j i)
  pub view_delete :
      (subject name j i : Bytes) (st : store.State)
      → Valid subject
      → Valid j
      → (store.delete_script subject name st).0 ≡ ok tt
      → view (store.delete_script subject name st).1 j i
        ≡ (if equal subject j && equal name i then none else view st j i)
  pub get_view :
      (subject name : Bytes) (st : store.State) (m : GoMap Script)
      → Valid subject
      → store.get_scripts subject st ≡ ok m
      → GoMap.lookup (entry_key subject name) m ≡ view st subject name
