-- ===== src/Server/Startup.antt =====
-- cmd/server/main.go: from the flags to the executors. `log.Fatalf` ends the process, so it is an
-- error here.
pub mod Shutdown
use msgscript.Base.{
  ◌≡◌, sym, ◌⊎◌, >>=-eq-ok, wrap_err-eq-ok, Bool, List, [], ◌∷◌, ◌++◌, Option, Bytes, text, equal,
  equal_iff, arith, Result, ok, err, panic, ◌>>=◌, wrap_err, if◌then◌else◌,
}
use msgscript.Base.GoMap.{GoMap}
use msgscript.Store.Etcd.Client.{EtcdClient}
use msgscript.Store.ByName.{Outside, Backend, store_by_name, store_by_name-names}
use msgscript.Executor.{Executor, start_all_executors}
use msgscript.LuaModules.Plugins.{PluginEntry, read_plugin_dir}
use msgscript.Server.Http.Routes.{new_function_handler}
use msgscript.Server.Telemetry.{Tracing, setup_otel_sdk}

pub record Flags : Type 0 where
  pub backend_name : Bytes
  pub etcd_url : Bytes
  pub nats_url : Bytes
  pub script_dir : Bytes
  pub library_dir : Bytes
  pub plugin_dir : Bytes

-- What the environment and the packages give: `TELEMETRY_TRACES`, `NATS_URL`, the embedded server
-- with its URL, the connection, and whether podman was reached.
pub record Host (client : EtcdClient) (Preload : Type 0) : Type 0 where
  pub telemetry_traces : Bytes
  pub tracing : Tracing
  pub outside : Outside client
  pub nats_url : Bytes
  pub new_nats_server : Result Bytes
  pub connect : Bytes → Result (Unit {0})
  pub plugin_listing : Bytes → Result (List (PluginEntry Preload))
  pub podman_connected : Bool

pub record Started (client : EtcdClient) (Preload : Type 0) : Type 0 where
  pub store : Backend client
  pub url : Bytes
  pub plugins : List Preload
  pub executors : GoMap (Option Executor)

module _ {client : EtcdClient} {Preload : Type 0} where
  -- The traces. An error of their set-up ends the process.
  start_traces : Host client Preload → Result (Unit {0})
  start_traces h = elim (setup_otel_sdk h.tracing) [
    | ok (fns, []) ↦ ok tt
    | ok (fns, (e ∷ errors)) ↦ err (text "failed to initialize opentelemetry traces: " ++ e)
    | err e ↦ err e
    | panic ↦ panic
  ]

  -- The flag, the environment, or an embedded server.
  unfoldable pub nats_url_of : Flags → Host client Preload → Result Bytes
  nats_url_of flags h =
      if equal flags.nats_url []
      then if equal h.nats_url []
        then wrap_err (text "failed to start embeded NATS server: ") h.new_nats_server
        else ok h.nats_url
      else ok flags.nats_url

  start_plugins : Flags → Host client Preload → Result (List Preload)
  start_plugins flags h =
      if equal flags.plugin_dir []
      then ok []
      else wrap_err (text "failed to read plugins: ")
          (read_plugin_dir flags.plugin_dir (h.plugin_listing flags.plugin_dir))

  -- `main`, up to the subscription
  unfoldable pub start_server : Flags → Host client Preload → Result (Started client Preload)
  unfolding start_traces start_plugins
  start_server flags h = do
    _ ← (if equal h.telemetry_traces [] then ok tt else start_traces h)
    store ← wrap_err (text "failed to initialize the script store: ") (
        store_by_name client h.outside flags.backend_name flags.etcd_url flags.script_dir
          flags.library_dir)
    url ← nats_url_of flags h
    _ ← wrap_err (text "Failed to connect to NATS: ") (h.connect url)
    plugins ← start_plugins flags h
    ok (record {
      store = store;
      url = url;
      plugins = plugins;
      executors = start_all_executors h.podman_connected;
    })

  -- What a server that starts has come through.
  pub record Parts (flags : Flags) (h : Host client Preload) (s : Started client Preload)
      : Type 0 where
    pub stored :
        store_by_name client h.outside flags.backend_name flags.etcd_url flags.script_dir
          flags.library_dir
        ≡ ok s.store
    pub given : nats_url_of flags h ≡ ok s.url
    pub connected : h.connect s.url ≡ ok tt
    pub all_started : s.executors ≡ start_all_executors h.podman_connected

  pub start_server-Parts :
      (flags : Flags) (h : Host client Preload) (s : Started client Preload)
      → start_server flags h ≡ ok s
      → Parts flags h s
  unfolding start_server
  start_server-Parts flags h s started =
      let (_, ht, e1) =
        >>=-eq-ok (if equal h.telemetry_traces [] then ok tt else start_traces h) _ started in
      let (b, hb, e2) =
        >>=-eq-ok
          (wrap_err (text "failed to initialize the script store: ") (
            store_by_name client h.outside flags.backend_name flags.etcd_url flags.script_dir
              flags.library_dir))
          _ e1 in
      let (url, given, e3) = >>=-eq-ok (nats_url_of flags h) _ e2 in
      let (_, came, e4) =
        >>=-eq-ok (wrap_err (text "Failed to connect to NATS: ") (h.connect url)) _ e3 in
      let (plugins, hp, e5) = >>=-eq-ok (start_plugins flags h) _ e4 in
      let same_url : url ≡ s.url = cc in
      let same_store : b ≡ s.store = cc in
      record {
        stored = rw (sym same_store) (wrap_err-eq-ok _ _ hb);
        given = rw (sym same_url) given;
        connected = rw (sym same_url) (wrap_err-eq-ok _ _ came);
        all_started = cc;
      }

  -- A server that starts was given the name of the etcd backend or of the file backend, whatever
  -- other names the help of the flag has.
  pub start_server-backend_name :
      (flags : Flags) (h : Host client Preload) (s : Started client Preload)
      → start_server flags h ≡ ok s
      → (flags.backend_name ≡ text "etcd") ⊎ (flags.backend_name ≡ text "file")
  start_server-backend_name flags h s e =
      store_by_name-names client h.outside flags.backend_name flags.etcd_url flags.script_dir
        flags.library_dir s.store (start_server-Parts flags h s e).stored

  -- The flag, the environment and the embedded server, read once more with the URL that they gave,
  -- give it again.
  nats_url_of-again :
      (flags : Flags) (h : Host client Preload) (url : Bytes)
      → nats_url_of flags h ≡ ok url
      → (if equal url [] then h.nats_url else url) ≡ url
  unfolding nats_url_of
  nats_url_of-again flags h url e =
      ground (arith, equal_iff url [], equal_iff flags.nats_url [], equal_iff h.nats_url [])

  handler_again :
      (flags : Flags) (h : Host client Preload) (url : Bytes) (parse : Bytes → Result (Unit {0}))
      → nats_url_of flags h ≡ ok url
      → h.connect url ≡ ok tt
      → ((name : Bytes) → parse name ≡ ok tt)
      → new_function_handler h.nats_url h.connect parse flags.backend_name url
        ≡ ok (record { url = url; backend = flags.backend_name })
  unfolding new_function_handler
  handler_again flags h url parse given connected parsed = rw (
    nats_url_of-again flags h url given,
    connected,
    parsed (text "list"),
    parsed (text "names"),
    parsed (text "info"),
  )

  -- For a server that starts, and where the embedded templates parse, the function handler is made,
  -- and on the NATS server of the subscription: on the one of the flag, of the environment, or the
  -- embedded one. Connecting twice to one URL is taken to give the same.
  pub start_server-new_function_handler :
      (flags : Flags) (h : Host client Preload) (s : Started client Preload)
      (parse : Bytes → Result (Unit {0}))
      → start_server flags h ≡ ok s
      → ((name : Bytes) → parse name ≡ ok tt)
      → new_function_handler h.nats_url h.connect parse flags.backend_name s.url
        ≡ ok (record { url = s.url; backend = flags.backend_name })
  start_server-new_function_handler flags h s parse started parsed =
      let parts = start_server-Parts flags h s started in
      handler_again flags h s.url parse parts.given parts.connected parsed
