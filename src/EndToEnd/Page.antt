-- ===== src/EndToEnd/Page.antt =====
-- cmd/server: a GET of a subject, on a server that was started with a folder of scripts.
use mathlib.Core.List.{Permᴰ, Memᴰ}
use msgscript.Base.{
  false, List, none, some, [], ◌∷◌, map, ◌≡◌, ◌≢◌, refl, sym, ap, ◌∙◌, Bytes, text, Result, ok,
  arith, Memᴰ-Permᴰ, Option,
}
use msgscript.Base.GoMap
use msgscript.Base.GoMap.{GoMap}
use msgscript.Base.Strings.{Free, has_prefix, split, split-Free}
use msgscript.Script.{Script}
use msgscript.Script.Directory.{DirEntry}
use msgscript.Script.Directory.Lookup.{last_script, lua_scripts}
use msgscript.Store.Etcd.Client.{EtcdClient}
use msgscript.Store.File.{FileStore, file_store, file_get}
use msgscript.Store.ByName.{file_backend}
use msgscript.Executor.{ScriptResult, returned}
use msgscript.Server.Startup.{Flags, Host, Started, start_server}
use msgscript.Server.Dispatch.{Surroundings}
use msgscript.Server.Dispatch.Collecting.{reply_of}
use msgscript.Server.Dispatch.Replies.{IsScriptSubject}
use msgscript.Server.Dispatch.Channel.{Pool}
use msgscript.Server.Dispatch.Channel.Answer.{IsRun, results_of}
use msgscript.Server.Http.{Request, request_message}
use msgscript.Server.Http.Connection.{Delivers, IsMessageJson, IsReplyJson}
use msgscript.Server.Http.EndToEnd.{IsPage, serve_http-IsPage}
use msgscript.Server.Http.Pages.{Page}
use msgscript.Server.Http.Routes.{Router, run_http, run_http-serve_http}
use msgscript.EndToEnd.Started.{start_server-found}

below-Free :
    (subject : Bytes) → Free b'/' subject → has_prefix (b'/' ∷ subject) (text "/_/") ≡ false
unfolding has_prefix text
below-Free [] free = refl
below-Free (x ∷ []) free = ground arith
below-Free (x ∷ y ∷ subject) free = ground (arith, free.1.0)

split-path : (subject : Bytes) → Free b'/' subject → split b'/' (b'/' ∷ subject) ≡ [] ∷ subject ∷ []
unfolding split
split-path subject free = rw (split-Free b'/' subject free) refl

tail : Bytes → Bytes
tail [] = []
tail (x ∷ s) = s

path-ne :
    (subject other : Bytes) → subject ≢ other → ◌≢◌ {A = Bytes} (b'/' ∷ subject) (b'/' ∷ other)
unfolding tail
path-ne subject other ne e = ne (ap tail e)

module _ {client : EtcdClient} {Preload : Type 0} (env : Surroundings) (f : FileStore)
    (request : Bytes → Bytes → Result Bytes) (connection : Delivers env file_store f request) where
  -- On a server that started with a file store, from a folder of scripts that has an absolute path
  -- and can be listed, a request with a readable body for `/` and a subject is answered by the first
  -- HTML result, or else by the JSON, of the results of all scripts of that subject, each of them once and among them that of the
  -- last script of the folder with that subject and any one name: if the path is clean, the subject
  -- has no slash, is a script subject, and is not empty, `logo.webp` or `favicon.ico`, NATS brings
  -- the request to the handler of messages and back, the message and the reply of these results,
  -- in any order of the scripts, decode from their JSON, and each script returns a result.
  pub run_http-IsPage :
      (flags : Flags) (h : Host client Preload) (s : Started client Preload) (dir : Bytes)
      (entries : List DirEntry) (router : Router) (template : Page → Bytes × Option Bytes)
      (picture rendered : Bytes) (r : Request) (subject name payload body : Bytes) (scr : Script)
      (scripts : GoMap Script) (result : Script → ScriptResult) (end : Pool)
      (encode : List Script → Bytes)
      → let m = request_message r subject payload in
        start_server flags h ≡ ok s
        → s.store ≡ file_backend f
        → h.outside.folders.absolute flags.script_dir ≡ ok dir
        → h.outside.folders.read_dir dir ≡ ok entries
        → last_script subject name none (lua_scripts dir entries) ≡ some scr
        → file_get subject f ≡ ok scripts
        → r.path ≡ b'/' ∷ subject
        → router.clean r.path ≡ r.path
        → r.body ≡ ok payload
        → Free b'/' subject
        → subject ≢ []
        → subject ≢ text "logo.webp"
        → subject ≢ text "favicon.ico"
        → IsScriptSubject subject
        → IsMessageJson env.json m body
        → IsRun env m scripts result end
        → ((order : List Script)
            → Permᴰ order (GoMap.values scripts)
            → IsReplyJson env.json (reply_of (map result order)) (encode order))
        → (order : List Script) × Memᴰ scr order
          × Permᴰ order (GoMap.values scripts)
          × (end.channel ≡ map returned (map result order))
          × IsPage env.json (map result order) (
              run_http router
                (record { json = env.json; request = request; template = template })
                picture
                rendered
                r)
  unfolding text has_prefix
  run_http-IsPage flags h s dir entries router template picture rendered r subject name payload body
        scr scripts result end encode started stored found listed written got path clean full free
        some_text logo_path icon ordinary encoded ran answered =
      let m = request_message r subject payload in
      let (order, same, sent_as, results) = results_of env m scripts result end ran in
      let held =
        start_server-found flags h s f dir entries subject name scr scripts started stored found
          listed written got in
      let routed =
        run_http-serve_http router
          (record { json = env.json; request = request; template = template }) picture rendered r
          clean (rw path refl) (rw path (below-Free subject free))
          (λ e. path-ne subject [] some_text (sym path ∙ e))
          (λ e. path-ne subject (text "logo.webp") logo_path (sym path ∙ e))
          (λ e. path-ne subject (text "favicon.ico") icon (sym path ∙ e)) in
      (
        order,
        Memᴰ-Permᴰ same (GoMap.Memᴰ-values name scripts held),
        same,
        sent_as,
        rw routed (
            serve_http-IsPage env file_store f request connection r [] subject payload body
              (encode order) [] scripts (map result order) (rw path (split-path subject free)) full
              ordinary encoded got results (answered order same)),
      )
