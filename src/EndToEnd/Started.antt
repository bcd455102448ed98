-- ===== src/EndToEnd/Started.antt =====
-- cmd/server/main.go over the file backend: the scripts of the folder that the server was started
-- with.
use mathlib.Core.List.{Permᴰ, Memᴰ}
use msgscript.Base.{List, some, none, false, [], ◌∷◌, ◌++◌, map, ◌≡◌, ◌≢◌, ◌∙◌, Bytes, ok}
use msgscript.Base.GoMap
use msgscript.Base.GoMap.{GoMap}
use msgscript.Script.{Script}
use msgscript.Script.Directory.{DirEntry}
use msgscript.Script.Directory.Lookup.{last_script, lua_scripts}
use msgscript.Store.Etcd.Client.{EtcdClient}
use msgscript.Store.File.{FileStore, file_store, file_get}
use msgscript.Store.File.Laws.{file_store-Refines}
use msgscript.Store.Loading.Lookup.{open_file_store-lookup}
use msgscript.Store.ByName.{file_backend, store_by_name-file_backend}
use msgscript.Executor.{ScriptResult, returned}
use msgscript.Server.Startup.{Flags, Host, Started, start_server, start_server-Parts}
use msgscript.Server.Dispatch.{NatsMsg, Surroundings, received_message, acknowledge, handle_message}
use msgscript.Server.Dispatch.Collecting.{reply_of}
use msgscript.Server.Dispatch.Replies.{IsScriptSubject}
use msgscript.Server.Dispatch.Channel.{Pool}
use msgscript.Server.Dispatch.Channel.Answer.{IsRun, handle_message-found}

-- A server that started with a file store has each script of its folder under the script's subject
-- and name, where the folder has an absolute path and can be listed.
pub start_server-found :
    {client : EtcdClient} {Preload : Type 0} (flags : Flags) (h : Host client Preload)
    (s : Started client Preload) (f : FileStore) (dir : Bytes) (entries : List DirEntry)
    (subject name : Bytes) (scr : Script) (scripts : GoMap Script)
    → start_server flags h ≡ ok s
    → s.store ≡ file_backend f
    → h.outside.folders.absolute flags.script_dir ≡ ok dir
    → h.outside.folders.read_dir dir ≡ ok entries
    → last_script subject name none (lua_scripts dir entries) ≡ some scr
    → file_get subject f ≡ ok scripts
    → GoMap.lookup name scripts ≡ some scr
start_server-found {client} flags h s f dir entries subject name scr scripts started stored found
      listed written got =
    let opened =
      store_by_name-file_backend client h.outside flags.backend_name flags.etcd_url flags.script_dir
        flags.library_dir f ((start_server-Parts flags h s started).stored ∙ rw stored) in
    file_store-Refines.get_view subject name f scripts tt got
    ∙ open_file_store-lookup h.outside.folders flags.script_dir flags.library_dir dir entries f
        subject name found listed opened
    ∙ written

module _ {client : EtcdClient} {Preload : Type 0} (env : Surroundings) where
  -- A server that starts with a file store, on a folder of scripts that has an absolute path and can
  -- be listed, answers a message with the result of the last script of that folder with the
  -- message's subject and any one name, among those of all scripts of the subject, each of them
  -- once: if the subject is a script subject, the message has a reply subject, an acknowledgement
  -- that is due is published, each script returns a result, and every reply of these results
  -- encodes as JSON.
  pub start_server-answered :
      (flags : Flags) (h : Host client Preload) (s : Started client Preload) (f : FileStore)
      (dir : Bytes) (entries : List DirEntry) (msg : NatsMsg) (name : Bytes) (scr : Script)
      (scripts : GoMap Script) (result : Script → ScriptResult) (end : Pool)
      (encode : List Script → Bytes)
      → start_server flags h ≡ ok s
      → s.store ≡ file_backend f
      → h.outside.folders.absolute flags.script_dir ≡ ok dir
      → h.outside.folders.read_dir dir ≡ ok entries
      → IsScriptSubject msg.subject
      → let m = received_message env msg in
        last_script m.subject name none (lua_scripts dir entries) ≡ some scr
        → file_get m.subject f ≡ ok scripts
        → (acknowledge env m msg.reply).1 ≡ none
        → IsRun env m scripts result end
        → msg.reply ≢ []
        → ((order : List Script)
            → env.json.marshal_reply (reply_of (map result order)) ≡ ok (encode order))
        → (order : List Script) × Memᴰ scr order
          × Permᴰ order (GoMap.values scripts)
          × (end.channel ≡ map returned (map result order))
          × (handle_message env file_store msg f ≡ record {
            published = (acknowledge env m msg.reply).0 ++ (msg.reply, encode order) ∷ [];
            crashed = false;
            state = f;
          })
  start_server-answered flags h s f dir entries msg name scr scripts result end encode started
        stored found listed ordinary written got sent ran ne encoded =
      handle_message-found env file_store msg f scripts result end encode name scr ordinary got sent
        ran ne encoded
        (start_server-found flags h s f dir entries (received_message env msg).subject name scr
          scripts started stored found listed written got)
