-- ===== src/Store/Etcd/Backend.antt =====
-- `EtcdScriptStore` as a `ScriptStore`.
use msgscript.Base.{text}
use msgscript.Store.Interface.{ScriptStore}
use msgscript.Store.Etcd.Client.{EtcdClient, ScriptCodec}
use msgscript.Store.Etcd.{
  EtcdStore, etcd_add, etcd_delete, etcd_get, etcd_list, etcd_load, etcd_add_library,
  etcd_remove_library,
}
use msgscript.Store.Etcd.Mutex.{take_lock, release_lock}

-- `GetScripts` decodes scripts of its own, so a write through them leaves the store alone.
abbrev pub etcd_store : EtcdClient → ScriptCodec → ScriptStore
etcd_store client codec = record {
  State = EtcdStore client;
  add_script = etcd_add client codec;
  delete_script = etcd_delete client codec;
  get_scripts = etcd_get client codec;
  release_lock = release_lock client;
  take_lock = take_lock client;
  list_subjects = etcd_list client codec;
  load_librairies = etcd_load client codec;
  add_library = etcd_add_library client codec;
  remove_library = etcd_remove_library client codec;
  backend_name = text "etcd";
  write_through = λ subject key f st. st;
}
