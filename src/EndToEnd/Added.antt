-- ===== src/EndToEnd/Added.antt =====
-- cmd/cli/cmd_add.go and cmd/server/main.go: a script that `msgscript add` put into etcd, and a server
-- on the same etcd.
use mathlib.Core.List.{Permᴰ, Memᴰ}
use msgscript.Base.{
  List, none, some, false, [], ◌∷◌, ◌++◌, map, ◌≡◌, ◌≢◌, ◌∙◌, sym, ap, Bytes, ok, equal_refl,
}
use msgscript.Base.GoMap
use msgscript.Base.GoMap.{GoMap}
use msgscript.Base.Strings.{Free}
use msgscript.Script.{Script, read_string}
use msgscript.Store.Etcd.{EtcdStore, get_key, etcd_get}
use msgscript.Store.Etcd.Client.{EtcdClient, ScriptCodec, KeyLaws, CodecLaws, IsCoded}
use msgscript.Store.Etcd.Backend.{etcd_store}
use msgscript.Store.Etcd.Scripts.{etcd_view, etcd_store-Refines}
use msgscript.Store.ByName.{Outside, etcd_backend}
use msgscript.Executor.{ScriptResult, returned}
use msgscript.Server.Dispatch.{NatsMsg, Surroundings, received_message, acknowledge, handle_message}
use msgscript.Server.Dispatch.Collecting.{reply_of}
use msgscript.Server.Dispatch.Replies.{IsScriptSubject}
use msgscript.Server.Dispatch.Channel.{Pool}
use msgscript.Server.Dispatch.Channel.Answer.{IsRun, handle_message-found}
use msgscript.Cli.{Names, script_names}
use msgscript.Cli.Adding.{success, add_cmd_run-view}
use msgscript.Cli.Commands.{StoreFlags, add_cmd, add_cmd-ran}

module _ (client : EtcdClient) (codec : ScriptCodec) (keys : KeyLaws client)
    (coded : CodecLaws codec) where
  -- What `add` left in etcd under the subject and the name, seen from any node.
  add_cmd-view :
      (o : Outside client) (cli : StoreFlags) (flags : Names) (filename content : Bytes)
      (names : Names) (left node : EtcdStore client)
      → let added = add_cmd client codec o cli flags filename (ok content) in
        script_names flags (read_string content) [] ≡ ok names
        → Free b'/' names.subject
        → IsCoded (read_string content)
        → added.printed ≡ ok (success names)
        → added.backend ≡ some (etcd_backend left)
        → node.server ≡ left.server
        → etcd_view client keys codec node names.subject names.name ≡ some (read_string content)
  add_cmd-view o cli flags filename content names left node chosen valid plain printed ended same =
      let store = etcd_store client codec in
      let (st, told, kept) =
        add_cmd-ran client codec o cli flags filename (ok content) left ended in
      ap (λ s. etcd_view client keys codec (record node { server = s }) names.subject names.name)
        same
      ∙ ap (λ s. etcd_view client keys codec s names.subject names.name) kept
      ∙ add_cmd_run-view store (Free b'/') IsCoded (etcd_view client keys codec) get_key
          (etcd_store-Refines client keys codec coded) flags filename content names st chosen valid
          plain (sym told ∙ printed) names.subject names.name valid
      ∙ rw (equal_refl names.subject, equal_refl names.name)

  -- Where `add` has a subject without a slash and a name, each from its flag or else from the file,
  -- the strings of the script are UTF-8, and it prints that it added the script to etcd, a server on the same etcd answers a message to that
  -- subject with the result of that script among those of all scripts that it finds for the
  -- subject, each of them once: if the subject is a script subject, the message has a reply
  -- subject, an acknowledgement that is due is published, each script returns a result, and every
  -- reply of these results encodes as JSON.
  pub add_cmd-answered :
      (env : Surroundings) (o : Outside client) (cli : StoreFlags) (flags : Names)
      (filename content : Bytes) (names : Names) (left node : EtcdStore client) (msg : NatsMsg)
      (scripts : GoMap Script) (result : Script → ScriptResult) (end : Pool)
      (encode : List Script → Bytes)
      → let added = add_cmd client codec o cli flags filename (ok content) in
        let m = received_message env msg in
        script_names flags (read_string content) [] ≡ ok names
        → Free b'/' names.subject
        → IsCoded (read_string content)
        → added.printed ≡ ok (success names)
        → added.backend ≡ some (etcd_backend left)
        → node.server ≡ left.server
        → IsScriptSubject msg.subject
        → m.subject ≡ names.subject
        → etcd_get client codec m.subject node ≡ ok scripts
        → (acknowledge env m msg.reply).1 ≡ none
        → IsRun env m scripts result end
        → msg.reply ≢ []
        → ((order : List Script)
            → env.json.marshal_reply (reply_of (map result order)) ≡ ok (encode order))
        → (order : List Script) × Memᴰ (read_string content) order
          × Permᴰ order (GoMap.values scripts)
          × (end.channel ≡ map returned (map result order))
          × (handle_message env (etcd_store client codec) msg node ≡ record {
            published = (acknowledge env m msg.reply).0 ++ (msg.reply, encode order) ∷ [];
            crashed = false;
            state = node;
          })
  add_cmd-answered env o cli flags filename content names left node msg scripts result end encode
        chosen valid plain printed ended same ordinary addressed got sent ran ne encoded =
      let view =
        add_cmd-view o cli flags filename content names left node chosen valid plain printed ended
          same in
      let found : GoMap.lookup (get_key names.subject names.name) scripts
          ≡ some (read_string content) =
        (etcd_store-Refines client keys codec coded).get_view names.subject names.name node scripts
          valid (rw addressed at got)
        ∙ view in
      handle_message-found env (etcd_store client codec) msg node scripts result end encode
        (get_key names.subject names.name) (read_string content) ordinary got sent ran ne encoded
        found
