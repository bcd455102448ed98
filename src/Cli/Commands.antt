-- ===== src/Cli/Commands.antt =====
-- cmd/cli: the commands from the store that they open. Each opens it by the two flags of the root
-- command and with no folders.
use msgscript.Base.{
  ℕ, Bool, List, [], ◌∷◌, ◌++◌, Option, none, some, Bytes, text, Result, ok, err, panic, ◌≡◌, refl,
}
use msgscript.Store.Interface.{ScriptStore}
use msgscript.Store.Etcd.{EtcdStore}
use msgscript.Store.Etcd.Client.{EtcdClient, ScriptCodec}
use msgscript.Store.Etcd.Backend.{etcd_store}
use msgscript.Store.File.{file_store}
use msgscript.Store.ByName.{
  Outside, Backend, etcd_backend, file_backend, store_by_name, store_by_name-no_folder,
}
use msgscript.Cli.Libraries.{Files, lib_add_run}
use msgscript.Cli.{Names, Shown, message, add_cmd_run, rm_cmd_run, list_cmd_run}

-- `--backend` and `--etcdurls`
pub record StoreFlags : Type 0 where
  pub backend : Bytes
  pub etcd_urls : Bytes

module _ (client : EtcdClient) (codec : ScriptCodec) where
  -- What is printed, and the store behind the command, where one was opened.
  pub record Ended (A : Type 0) : Type 0 where
    pub printed : Result A
    pub backend : Option (Backend client)

  -- The methods of the store that was opened.
  unfoldable pub on_backend :
      {A : Type 0}
      → ((store : ScriptStore) → store.State → Result A × store.State)
      → Backend client
      → Ended A
  on_backend run (etcd_backend st) =
      let (r, st') = run (etcd_store client codec) st in
      record { printed = r; backend = some (etcd_backend st') }
  on_backend run (file_backend f) =
      let (r, f') = run file_store f in record { printed = r; backend = some (file_backend f') }

  -- Where the store does not open, only the error is printed.
  unfoldable pub with_store :
      {A : Type 0}
      → (Bytes → A)
      → ((store : ScriptStore) → store.State → Result A × store.State)
      → Result (Backend client)
      → Ended A
  with_store text_of run (ok b) = on_backend run b
  with_store text_of run (err e) = record {
    printed = ok (text_of (text "failed to get script store: " ++ e));
    backend = none;
  }
  with_store text_of run panic = record { printed = panic; backend = none }

  module _ (o : Outside client) where
    abbrev pub opened : StoreFlags → Result (Backend client)
    opened cli = store_by_name client o cli.backend cli.etcd_urls [] []

    -- `addCmdRun`
    unfoldable pub add_cmd : StoreFlags → Names → Bytes → Result Bytes → Ended Bytes
    unfolding with_store on_backend
    add_cmd cli flags filename file =
        with_store (λ b. b) (λ store. add_cmd_run store flags filename file) (opened cli)

    -- `rmCmdRun`
    unfoldable pub rm_cmd : StoreFlags → Names → Ended (List Bytes)
    unfolding with_store on_backend
    rm_cmd cli flags = with_store (λ b. b ∷ []) (λ store. rm_cmd_run store flags) (opened cli)

    -- `listCmdRun`
    unfoldable pub list_cmd : StoreFlags → Ended Shown
    unfolding with_store on_backend
    list_cmd cli = with_store message (λ store st. (list_cmd_run store st, st)) (opened cli)

    -- `libAddRun`: the error that it prints or logs, or the number of libraries. The flag is read
    -- behind the store.
    unfoldable pub lib_add_cmd : StoreFlags → Result Bool → Files → List Bytes → Ended ℕ
    unfolding on_backend
    lib_add_cmd cli recursive files dirnames = elim (opened cli) [
      | ok b ↦
          on_backend
            (λ store st. elim recursive [
              | ok r ↦ lib_add_run store files r dirnames st
              | err e ↦ (err e, st)
              | panic ↦ (panic, st)
            ])
            b
      | err e ↦ record { printed = err (text "failed to create store: " ++ e); backend = none }
      | panic ↦ record { printed = panic; backend = none }
    ]

    with_store-backend :
        {A : Type 0} (text_of : Bytes → A)
        (run : (store : ScriptStore) → store.State → Result A × store.State)
        (r : Result (Backend client)) (b : Backend client)
        → (with_store text_of run r).backend ≡ some b
        → (b' : Backend client) × (r ≡ ok b')
    unfolding with_store
    with_store-backend text_of run (ok b') b h = (b', refl)
    with_store-backend text_of run (err e) b h = cc
    with_store-backend text_of run panic b h = cc

    -- Only with the flag `etcd` does a command reach a store.
    pub add_cmd-etcd :
        (cli : StoreFlags) (flags : Names) (filename : Bytes) (file : Result Bytes)
        (b : Backend client)
        → (add_cmd cli flags filename file).backend ≡ some b
        → cli.backend ≡ text "etcd"
    unfolding add_cmd
    add_cmd-etcd cli flags filename file b h =
        let (b', e) =
          with_store-backend (λ t. t) (λ store. add_cmd_run store flags filename file) (opened cli)
            b h in
        store_by_name-no_folder client o cli.backend cli.etcd_urls [] b' e

    with_store-etcd :
        {A : Type 0} (text_of : Bytes → A)
        (run : (store : ScriptStore) → store.State → Result A × store.State)
        (r : Result (Backend client)) (st' : EtcdStore client)
        → (with_store text_of run r).backend ≡ some (etcd_backend st')
        → (st : EtcdStore client) × ((with_store text_of run r).printed
            ≡ (run (etcd_store client codec) st).0)
          × (st' ≡ (run (etcd_store client codec) st).1)
    unfolding with_store on_backend
    with_store-etcd text_of run (ok (etcd_backend st)) st' h = (st, refl, cc)
    with_store-etcd text_of run (ok (file_backend f)) st' h = cc
    with_store-etcd text_of run (err e) st' h = cc
    with_store-etcd text_of run panic st' h = cc

    -- A command that ends with an etcd store ran on one.
    pub add_cmd-ran :
        (cli : StoreFlags) (flags : Names) (filename : Bytes) (file : Result Bytes)
        (st' : EtcdStore client)
        → (add_cmd cli flags filename file).backend ≡ some (etcd_backend st')
        → (st : EtcdStore client) × ((add_cmd cli flags filename file).printed
            ≡ (add_cmd_run (etcd_store client codec) flags filename file st).0)
          × (st' ≡ (add_cmd_run (etcd_store client codec) flags filename file st).1)
    unfolding add_cmd
    add_cmd-ran cli flags filename file st' h =
        with_store-etcd (λ t. t) (λ store. add_cmd_run store flags filename file) (opened cli) st' h
