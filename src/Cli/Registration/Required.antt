-- ===== src/Cli/Registration/Required.antt =====
-- The flags that `rm` and `dev` mark as required: the mark does not reach them.
use msgscript.Base.{
  List, [], ◌∷◌, Option, none, some, Bytes, text, equal, Result, ok, ◌≡◌, refl, All,
}
use msgscript.Store.Etcd.Client.{EtcdClient, ScriptCodec}
use msgscript.Store.ByName.{Outside, etcd_backend, store_by_name}
use msgscript.Store.Etcd.{EtcdStore, etcd_delete, etcd_script_key_prefix}
use msgscript.Store.Interface.{ScriptStore}
use msgscript.Store.Etcd.Scripts.{etcd_delete-reply}
use msgscript.Base.{ap, ◌∙◌}
use msgscript.Store.Etcd.Backend.{etcd_store}
use msgscript.Cli.{Names, rm_cmd_run, removed}
use msgscript.Cli.Commands.{StoreFlags, Ended, with_store, on_backend}
use msgscript.Base.{panic, err, ◌++◌, ◌≢◌}
use msgscript.Cli.{validate_arg_is_path}
use msgscript.Cli.Commands.{rm_cmd}
use msgscript.Cli.Dev.Command.{DevSetup, dev_cmd}
use msgscript.Cli.Registration.{
  root_flags, names_flags, dev_flags, root_command, rm_command, rm_main, dev_command, dev_main,
  path_arg,
}
use msgscript.Cli.Cobra.{Cobra, CobraLaws, IsPositional}
use msgscript.Cli.Registration.Found.{
  find, flag-command, flag-root, parse-command, root_flags-IsDistinct, names_flags-IsDistinct,
  dev_flags-IsDistinct, store_flags-some, names_of-some, flag_value-some,
}

removed-reply :
    (store : ScriptStore) (p : Result (Unit {0}) × store.State)
    → p.0 ≢ panic
    → (before : List Bytes) × ((removed store p).1 ≡ p.1)
      × ((removed store p).0 ≡ ok (before ++ text "Script removed\n" ∷ []))
      × (p.0 ≡ ok tt → before ≡ [])
unfolding removed
removed-reply store (ok _, st) total = ([], refl, refl, λ _. refl)
removed-reply store (err e, st) total =
    ((text "failed to remove script: " ++ e) ∷ [], refl, refl, λ h. cc)
removed-reply store (panic, st) total = absurd (total refl)

-- What `rm` does to an etcd store that opened.
rm_cmd-etcd :
    (client : EtcdClient) (codec : ScriptCodec) (o : Outside client) (cli : StoreFlags)
    (names : Names) (st : EtcdStore client)
    → store_by_name client o cli.backend cli.etcd_urls [] [] ≡ ok (etcd_backend st)
    → let deleted =
        client.delete
          (etcd_script_key_prefix ++ b'/' ∷ (names.subject ++ b'/' ∷ names.name))
          st.server in
      let ended = rm_cmd client codec o cli names in
      deleted.0 ≢ panic
      → (before : List Bytes) × (ended.backend
          ≡ some (etcd_backend (record st { server = deleted.1 })))
        × (ended.printed ≡ ok (before ++ text "Script removed\n" ∷ []))
        × (deleted.0 ≡ ok tt → before ≡ [])
unfolding rm_cmd with_store on_backend rm_cmd_run
rm_cmd-etcd client codec o cli names st opened total =
    let (kept, fine, calm) = etcd_delete-reply client codec names.subject names.name st in
    let store = etcd_store client codec in
    let (before, left, printed, quiet) =
      removed-reply store (etcd_delete client codec names.subject names.name st) (calm total) in
    rw (rm_cmd, opened)
      (before, ap (λ d. some (etcd_backend d)) (left ∙ kept), printed, λ h. quiet (fine h))

path_arg-single :
    (stat_error : Bytes → Option Bytes) (filename : Bytes)
    → stat_error filename ≡ none
    → path_arg stat_error (filename ∷ []) ≡ ok filename
unfolding path_arg validate_arg_is_path
path_arg-single stat_error filename there = rw (path_arg, there) refl

module _ (cobra : Cobra) (laws : CobraLaws cobra) where
  rm-flag-root :
      (name v : Bytes)
      → find name names_flags ≡ none
      → find name root_flags ≡ some v
      → cobra.flag (rm_command cobra ∷ root_command cobra ∷ []) name ≡ some v
  unfolding rm_command
  rm-flag-root name v other h =
      flag-root cobra laws (text "rm") names_flags (text "subject" ∷ text "name" ∷ [])
        names_flags-IsDistinct root_flags-IsDistinct name v other h

  rm-flag :
      (name v : Bytes)
      → find name names_flags ≡ some v
      → cobra.flag (rm_command cobra ∷ root_command cobra ∷ []) name ≡ some v
  unfolding rm_command
  rm-flag name v h =
      flag-command cobra laws (text "rm") names_flags (text "subject" ∷ text "name" ∷ [])
        names_flags-IsDistinct (root_command cobra ∷ []) name v h

  rm-parse :
      (args : List Bytes)
      → All IsPositional args
      → cobra.parse (rm_command cobra ∷ root_command cobra ∷ []) args
        ≡ ok (rm_command cobra ∷ root_command cobra ∷ [], args)
  unfolding rm_command
  rm-parse args positional =
      parse-command cobra laws (text "rm") names_flags (text "subject" ∷ text "name" ∷ [])
        names_flags-IsDistinct root_flags-IsDistinct args positional

  rm_main-rm_cmd :
      (client : EtcdClient) (codec : ScriptCodec) (o : Outside client) (args : List Bytes)
      → All IsPositional args
      → rm_main cobra client codec o args
        ≡ ok (
            rm_cmd client codec o
              (record { backend = text "etcd"; etcd_urls = text "localhost:2379" })
              (record { subject = []; name = [] }))
  unfolding rm_main names_flags root_flags text equal
  rm_main-rm_cmd client codec o args positional =
      let cs = rm_command cobra ∷ root_command cobra ∷ [] in
      let cli =
        store_flags-some cobra cs (text "etcd") (text "localhost:2379")
          (rm-flag-root (text "backend") (text "etcd") refl refl)
          (rm-flag-root (text "etcdurls") (text "localhost:2379") refl refl) in
      let names =
        names_of-some cobra cs [] [] (rm-flag (text "subject") [] refl)
          (rm-flag (text "name") [] refl) in
      rw (rm-parse args positional, cli, names) refl

  -- `rm` without a flag goes on, although both flags are marked as required: where the store of the
  -- default backend opens, it asks etcd to delete the key of the empty subject and the empty name, and
  -- whatever etcd answers, it prints at its end that the script was removed.
  pub rm_main-positional :
      (client : EtcdClient) (codec : ScriptCodec) (o : Outside client) (args : List Bytes)
      (st : EtcdStore client)
      → All IsPositional args
      → store_by_name client o (text "etcd") (text "localhost:2379") [] [] ≡ ok (etcd_backend st)
      → let deleted = client.delete (text "msgscript/scripts//") st.server in
        deleted.0 ≢ panic
        → (ended : Ended client codec (List Bytes)) × (before : List Bytes) × (rm_main cobra client
              codec o args
            ≡ ok ended)
          × (ended.backend ≡ some (etcd_backend (record st { server = deleted.1 })))
          × (ended.printed ≡ ok (before ++ text "Script removed\n" ∷ []))
          × (deleted.0 ≡ ok tt → before ≡ [])
  unfolding text
  rm_main-positional client codec o args st positional opened total =
      let cli : StoreFlags = record { backend = text "etcd"; etcd_urls = text "localhost:2379" } in
      let none_given : Names = record { subject = []; name = [] } in
      let (before, backend, printed, quiet) =
        rm_cmd-etcd client codec o cli none_given st opened total in
      (
        rm_cmd client codec o cli none_given,
        before,
        rm_main-rm_cmd client codec o args positional,
        backend,
        printed,
        quiet,
      )

  dev-flag-root :
      (name v : Bytes)
      → find name dev_flags ≡ none
      → find name root_flags ≡ some v
      → cobra.flag (dev_command cobra ∷ root_command cobra ∷ []) name ≡ some v
  unfolding dev_command
  dev-flag-root name v other h =
      flag-root cobra laws (text "dev") dev_flags (text "subject" ∷ text "name" ∷ text "input" ∷ [])
        dev_flags-IsDistinct root_flags-IsDistinct name v other h

  dev-flag :
      (name v : Bytes)
      → find name dev_flags ≡ some v
      → cobra.flag (dev_command cobra ∷ root_command cobra ∷ []) name ≡ some v
  unfolding dev_command
  dev-flag name v h =
      flag-command cobra laws (text "dev") dev_flags
        (text "subject" ∷ text "name" ∷ text "input" ∷ []) dev_flags-IsDistinct
        (root_command cobra ∷ []) name v h

  dev-parse :
      (args : List Bytes)
      → All IsPositional args
      → cobra.parse (dev_command cobra ∷ root_command cobra ∷ []) args
        ≡ ok (dev_command cobra ∷ root_command cobra ∷ [], args)
  unfolding dev_command
  dev-parse args positional =
      parse-command cobra laws (text "dev") dev_flags
        (text "subject" ∷ text "name" ∷ text "input" ∷ []) dev_flags-IsDistinct
        root_flags-IsDistinct args positional

  -- `dev` with nothing but the path of a file that there is does not stop, although three flags are
  -- marked as required: it goes on as with the executor lua, and with no subject, no name, no
  -- payload, no libraries and no folder of plugins given.
  pub dev_main-path :
      {Preload : Type 0} (setup : Bytes → Bytes → DevSetup Preload)
      (stat_error : Bytes → Option Bytes) (file : Bytes → Result Bytes)
      (input_file : Bytes → Option (Result Bytes)) (filename : Bytes)
      → IsPositional filename
      → stat_error filename ≡ none
      → dev_main cobra setup stat_error file input_file (filename ∷ [])
        ≡ ok (
            dev_cmd
              (record (setup [] []) { library = []; plugin_dir = [] })
              (record {
                names = record { subject = []; name = [] };
                executor = text "lua";
                filename = filename;
                file = file filename;
                input = [];
                input_file = input_file [];
              }))
  unfolding dev_main dev_flags root_flags text equal
  dev_main-path setup stat_error file input_file filename positional there =
      let cs = dev_command cobra ∷ root_command cobra ∷ [] in
      let names =
        names_of-some cobra cs [] [] (dev-flag (text "subject") [] refl)
          (dev-flag (text "name") [] refl) in
      rw
        (
          dev-parse (filename ∷ []) (positional, tt),
          path_arg-single stat_error filename there,
          flag_value-some cobra cs (text "library") [] (dev-flag (text "library") [] refl),
          flag_value-some cobra cs (text "pluginDir") [] (dev-flag (text "pluginDir") [] refl),
          names,
          flag_value-some cobra cs (text "input") [] (dev-flag (text "input") [] refl),
          flag_value-some cobra cs (text "executor") (text "lua")
              (dev-flag-root (text "executor") (text "lua") refl refl),
        )
        refl
