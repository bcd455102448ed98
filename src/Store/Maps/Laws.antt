-- ===== src/Store/Maps/Laws.antt =====
-- Lookups in the nested maps after each change.
use msgscript.Base.{
  ◌&&◌, none, some, ◌≡◌, arith, Bytes, equal, equal_iff, if◌then◌else◌, Option-cases, inl, inr,
}
use mathlib.Core.Option
use msgscript.Base.GoMap
use msgscript.Base.GoMap.{GoMap, lookup-insert, lookup-delete, lookup-nil}
use msgscript.Script.{Script}
use msgscript.Script.Directory.{ScriptMap, names_of}
use msgscript.Script.Directory.Lookup.{lookup_script}
use msgscript.Store.Maps.{delete_name, write_scripts}

module _ (subject name j i : Bytes) (scripts : ScriptMap) where
  pub lookup_script-insert :
      (names : GoMap Script)
      → lookup_script j i (GoMap.insert subject names scripts)
        ≡ (if equal subject j then GoMap.lookup i names else lookup_script j i scripts)
  unfolding lookup_script
  lookup_script-insert names = ground (arith, lookup-insert subject j names scripts)

  pub lookup_script-put :
      (s : Script)
      → lookup_script j i
          (GoMap.insert subject (GoMap.insert name s (names_of subject scripts)) scripts)
        ≡ (if equal subject j && equal name i then some s else lookup_script j i scripts)
  unfolding lookup_script
  lookup_script-put s = ground (
    arith,
    lookup-insert subject j (GoMap.insert name s (names_of subject scripts)) scripts,
    lookup-insert name i s (names_of subject scripts),
    equal_iff subject j,
  )

  pub lookup_script-delete_name :
      lookup_script j i (delete_name subject name scripts)
      ≡ (if equal subject j && equal name i then none else lookup_script j i scripts)
  unfolding lookup_script delete_name
  lookup_script-delete_name = ground (
    arith,
    lookup-insert subject j (GoMap.delete name (names_of subject scripts)) scripts,
    lookup-delete name i (names_of subject scripts),
    lookup-nil {V = Script} i,
    equal_iff subject j,
  )

  pub lookup_script-write_scripts :
      (f : Script → Script)
      → lookup_script j i (write_scripts subject name f scripts) ≡ (
          if equal subject j && equal name i
          then Option.map f (lookup_script j i scripts)
          else lookup_script j i scripts)
  unfolding lookup_script write_scripts
  lookup_script-write_scripts f =
      elim (Option-cases (GoMap.lookup name (names_of subject scripts))) [
        | inl e ↦ ground (arith, e, equal_iff subject j, equal_iff name i)
        | inr (s, e) ↦ ground (
          arith,
          e,
          lookup-insert subject j (GoMap.insert name (f s) (names_of subject scripts)) scripts,
          lookup-insert name i (f s) (names_of subject scripts),
          equal_iff subject j,
          equal_iff name i,
        )
      ]
