-- ===== src/Store/ByName.antt =====
-- store/store.go and store/etcd.go: `StoreByName`, and the etcd client that it makes.
use msgscript.Base.{
  ◌⊎◌, List, [], ◌++◌, Option, none, some, ◌≡◌, ◌≢◌, arith, Bool-cases, inl, inr, Bytes, text,
  equal, equal_iff, equal_ne, Result, ok, err, ◌>>=◌, >>=-eq-ok, sym, wrap_err, if◌then◌else◌,
}
use msgscript.Store.File.{FileStore}
use msgscript.Store.Loading.{Folders, open_file_store}
use msgscript.Store.Etcd.{EtcdStore, etcd_endpoints}
use msgscript.Store.Etcd.Client.{EtcdClient}

-- The endpoints that `EtcdClient` uses, beside the value that it leaves in `ETCD_ENDPOINTS`.
unfoldable pub client_endpoints : Bytes → Bytes → Bytes × Bytes
client_endpoints variable endpoints =
    if equal variable [] then (endpoints, endpoints) else (variable, variable)

no_error : {A B : Type 0} {e : Bytes} {a : A} → ◌≡◌ {A = Result A} (err e) (ok a) → B
no_error h = cc

module _ (client : EtcdClient) where
  -- What is outside: the variable `ETCD_ENDPOINTS`, the error of setting it, `clientv3.New` and the
  -- folders.
  pub record Outside : Type 0 where
    pub variable : Bytes
    pub setenv_error : Option Bytes
    pub connect : List Bytes → Result client.Server
    pub folders : Folders

  -- `EtcdClient`
  unfoldable pub etcd_client : Outside → Bytes → Result client.Server
  unfolding client_endpoints
  etcd_client o endpoints =
      let connected = o.connect (etcd_endpoints (client_endpoints o.variable endpoints).0) in
      let set : Result client.Server = elim o.setenv_error [
        | none ↦ connected
        | some e ↦ err (text "failed to set ETCD_ENDPOINTS environment variable")
      ] in
      if equal o.variable [] then set else connected

  -- `NewEtcdScriptStore`
  unfoldable pub new_etcd_store : Outside → Bytes → Result (EtcdStore client)
  new_etcd_store o endpoints = do
    server ← wrap_err (text "failed to connect to etcd: ") (etcd_client o endpoints)
    ok (record { server = server; mutexes = []; timers = []; next_timer = 0 })

  -- The store of a backend.
  pub data Backend : Type 0 where
    etcd_backend : EtcdStore client → Backend
    file_backend : FileStore → Backend

  -- `StoreByName`: the name of the backend, the endpoints, and the folders of the scripts and of the
  -- libraries.
  unfoldable pub store_by_name : Outside → Bytes → Bytes → Bytes → Bytes → Result Backend
  store_by_name o name endpoints script_dir library_dir =
      let etcd : Result Backend = (do
        st ← wrap_err (text "Failed to initialize etcd store: ") (new_etcd_store o endpoints)
        ok (etcd_backend st)) in
      let file : Result Backend = (do
        f ← open_file_store o.folders script_dir library_dir
        ok (file_backend f)) in
      if equal name (text "etcd")
      then etcd
      else if equal name (text "file")
      then file
      else err (text "Unknown backend: " ++ name)

  -- Without a folder of scripts, which the commands never give, no store is opened but that of etcd.
  pub store_by_name-no_folder :
      (o : Outside) (name endpoints library_dir : Bytes) (b : Backend)
      → store_by_name o name endpoints [] library_dir ≡ ok b
      → name ≡ text "etcd"
  unfolding store_by_name open_file_store equal
  store_by_name-no_folder o name endpoints library_dir b h =
      elim (Bool-cases (equal name (text "etcd"))) [
        | inl e ↦ (equal_iff name (text "etcd")).0 e
        | inr e ↦ elim (Bool-cases (equal name (text "file"))) [
          | inl f ↦ no_error (rw (e, f, store_by_name) at h)
          | inr f ↦ no_error (rw (e, f, store_by_name) at h)
        ]
      ]

module _ (client : EtcdClient) where
  -- Only two names open a store.
  pub store_by_name-names :
      (o : Outside client) (name endpoints script_dir library_dir : Bytes) (b : Backend client)
      → store_by_name client o name endpoints script_dir library_dir ≡ ok b
      → (name ≡ text "etcd") ⊎ (name ≡ text "file")
  unfolding store_by_name
  store_by_name-names o name endpoints script_dir library_dir b h =
      elim (Bool-cases (equal name (text "etcd"))) [
        | inl e ↦ inl ((equal_iff name (text "etcd")).0 e)
        | inr e ↦ elim (Bool-cases (equal name (text "file"))) [
          | inl f ↦ inr ((equal_iff name (text "file")).0 f)
          | inr f ↦ no_error (rw (e, f, store_by_name) at h)
        ]
      ]

  -- A file store is opened from the two folders.
  pub store_by_name-file_backend :
      (o : Outside client) (name endpoints script_dir library_dir : Bytes) (f : FileStore)
      → store_by_name client o name endpoints script_dir library_dir ≡ ok (file_backend f)
      → open_file_store o.folders script_dir library_dir ≡ ok f
  unfolding store_by_name
  store_by_name-file_backend o name endpoints script_dir library_dir f h =
      elim (Bool-cases (equal name (text "etcd"))) [
        | inl e ↦
            let (st, _, other) =
              >>=-eq-ok
                (wrap_err (text "Failed to initialize etcd store: ")
                  (new_etcd_store client o endpoints))
                _ (rw e at h) in
            cc
        | inr e ↦ elim (Bool-cases (equal name (text "file"))) [
          | inl g ↦
              let (f', opened, same) =
                >>=-eq-ok (open_file_store o.folders script_dir library_dir) _ (rw (e, g) at h) in
              let equals : f' ≡ f = cc in rw (sym equals) opened
          | inr g ↦ no_error (rw (e, g, store_by_name) at h)
        ]
      ]

-- The first client of a process decides for the later ones: with endpoints, a second client uses
-- what the first one used, whatever it is asked for.
pub client_endpoints-client_endpoints :
    (variable endpoints others : Bytes)
    → endpoints ≢ []
    → (client_endpoints (client_endpoints variable endpoints).1 others).0
      ≡ (client_endpoints variable endpoints).0
unfolding client_endpoints
client_endpoints-client_endpoints variable endpoints others ne =
    ground (arith, equal_iff variable [], equal_ne endpoints [] ne)
