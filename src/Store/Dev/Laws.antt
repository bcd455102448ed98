-- ===== src/Store/Dev/Laws.antt =====
-- The development store is the abstract store.
use msgscript.Base.{Option, Bytes, arith}
use msgscript.Script.{Script}
use msgscript.Script.Directory.Lookup.{lookup_script}
use msgscript.Store.Dev.{DevStore, dev_store, on_put, on_delete}
use msgscript.Store.Interface.{Refines}
use msgscript.Store.Maps.Laws.{lookup_script-put, lookup_script-delete_name}

abbrev pub dev_view : DevStore → Bytes → Bytes → Option Script
dev_view st subject name = lookup_script subject name st.scripts

-- In the development store, adding or deleting a script changes what is stored under that subject
-- and name and nothing else, and the map of a subject holds just what is stored under it.
pub dev_store-Refines : Refines dev_store (λ _. Unit) (λ _. Unit) dev_view (λ subject name. name)
unfolding on_put on_delete lookup_script
dev_store-Refines = record {
  view_add = λ subject name j i s st _ _ _ _. lookup_script-put subject name j i st.scripts s;
  view_delete = λ subject name j i st _ _ _. lookup_script-delete_name subject name j i st.scripts;
  get_view = λ subject name st m _ h. ground arith;
}
