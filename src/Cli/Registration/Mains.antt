-- ===== src/Cli/Registration/Mains.antt =====
-- That the commands of cmd/cli find every flag that they read.
use msgscript.Base.{List, [], ◌∷◌, Option, Bytes, text, equal, Result, panic, ◌≢◌, refl}
use msgscript.Store.Etcd.Client.{EtcdClient, ScriptCodec}
use msgscript.Store.ByName.{Outside}
use msgscript.Cli.Dev.Command.{DevSetup}
use msgscript.Cli.Libraries.{Files}
use msgscript.Cli.Proxy.Setup.{Around}
use msgscript.Cli.Registration.{
  names_flags, dev_flags, dev_http_flags, lib_add_flags, root_command, add_command, rm_command,
  list_command, dev_command, dev_http_command, lib_command, lib_add_command, add_main, rm_main,
  list_main, dev_main, dev_http_main, lib_add_main, path_arg, flag_value, store_flags, names_of,
}
use msgscript.Cli.Cobra.{Command, Cobra, CobraLaws}
use msgscript.Cli.Registration.Found.{
  inherited-root, inherited-lib, root_flags-IsDistinct, names_flags-IsDistinct,
  dev_flags-IsDistinct, dev_http_flags-IsDistinct, lib_add_flags-IsDistinct,
}
use msgscript.Cli.Registration.Present.{
  bind-total, path_arg-total, value_read, names_read, store_read, executor_read,
}

module _ (cobra : Cobra) (laws : CobraLaws cobra)
    (parse_total : (cs : List (Command cobra.FlagSet)) (args : List Bytes)
      → cobra.parse cs args ≢ panic)
    (args : List Bytes) where
  module _ (client : EtcdClient) (codec : ScriptCodec) (o : Outside client) where
    list_main-total : list_main cobra client codec o args ≢ panic
    unfolding list_main list_command text equal
    list_main-total =
        bind-total (cobra.parse (list_command cobra ∷ root_command cobra ∷ []) args) _
          (parse_total _ args)
          (λ p parsed.
            bind-total (store_flags cobra p.0) _
              (store_read cobra laws (text "list") [] [] tt (root_command cobra ∷ []) args p parsed
                (inherited-root cobra laws root_flags-IsDistinct) refl refl)
              (λ cli e h. cc))

    rm_main-total : rm_main cobra client codec o args ≢ panic
    unfolding rm_main rm_command names_flags text equal
    rm_main-total =
        let required = text "subject" ∷ text "name" ∷ [] in
        let ps = root_command cobra ∷ [] in
        bind-total (cobra.parse (rm_command cobra ∷ ps) args) _ (parse_total _ args) (λ p parsed.
          bind-total (store_flags cobra p.0) _
            (store_read cobra laws (text "rm") names_flags required names_flags-IsDistinct ps args p
              parsed (inherited-root cobra laws root_flags-IsDistinct) refl refl)
            (λ cli e.
              bind-total (names_of cobra p.0) _
                (names_read cobra laws (text "rm") names_flags required names_flags-IsDistinct ps
                  args p parsed refl refl)
                (λ names e' h. cc)))

    add_main-total :
        (stat_error : Bytes → Option Bytes) (file : Bytes → Result Bytes)
        → add_main cobra client codec o stat_error file args ≢ panic
    unfolding add_main add_command names_flags text equal
    add_main-total stat_error file =
        let ps = root_command cobra ∷ [] in
        bind-total (cobra.parse (add_command cobra ∷ ps) args) _ (parse_total _ args) (λ p parsed.
          bind-total (path_arg stat_error p.1) _ (path_arg-total stat_error p.1) (λ filename e.
            bind-total (store_flags cobra p.0) _
              (store_read cobra laws (text "add") names_flags [] names_flags-IsDistinct ps args p
                parsed (inherited-root cobra laws root_flags-IsDistinct) refl refl)
              (λ cli e'.
                bind-total (names_of cobra p.0) _
                  (names_read cobra laws (text "add") names_flags [] names_flags-IsDistinct ps args
                    p parsed refl refl)
                  (λ names e'' h. cc))))

    lib_add_main-total : (files : Files) → lib_add_main cobra client codec o files args ≢ panic
    unfolding lib_add_main lib_add_command lib_add_flags text equal
    lib_add_main-total files =
        let ps = lib_command cobra ∷ root_command cobra ∷ [] in
        bind-total (cobra.parse (lib_add_command cobra ∷ ps) args) _ (parse_total _ args)
          (λ p parsed.
            bind-total (store_flags cobra p.0) _
              (store_read cobra laws (text "add") lib_add_flags (text "name" ∷ [])
                lib_add_flags-IsDistinct ps args p parsed
                (inherited-lib cobra laws root_flags-IsDistinct) refl refl)
              (λ cli e h. cc))

  module _ {Preload : Type 0} (stat_error : Bytes → Option Bytes) where
    dev_http_main-total :
        (around : Bytes → Around Preload) → dev_http_main cobra around stat_error args ≢ panic
    unfolding dev_http_main dev_http_command dev_http_flags text equal
    dev_http_main-total around =
        let ps = root_command cobra ∷ [] in
        bind-total (cobra.parse (dev_http_command cobra ∷ ps) args) _ (parse_total _ args)
          (λ p parsed.
            let own =
              value_read cobra laws (text "devhttp") dev_http_flags [] dev_http_flags-IsDistinct ps
                args p parsed in
            bind-total (path_arg stat_error p.1) _ (path_arg-total stat_error p.1) (λ filename e.
              bind-total (flag_value cobra p.0 (text "library")) _ (own (text "library") [] refl)
                (λ library e.
                  bind-total (flag_value cobra p.0 (text "pluginDir")) _
                    (own (text "pluginDir") [] refl)
                    (λ plugin_dir e.
                      bind-total (flag_value cobra p.0 (text "executor")) _
                        (executor_read cobra laws (text "devhttp") dev_http_flags []
                          dev_http_flags-IsDistinct ps args p parsed
                          (inherited-root cobra laws root_flags-IsDistinct) refl)
                        (λ executor e h. cc)))))

    dev_main-total :
        (setup : Bytes → Bytes → DevSetup Preload) (file : Bytes → Result Bytes)
        (input_file : Bytes → Option (Result Bytes))
        → dev_main cobra setup stat_error file input_file args ≢ panic
    unfolding dev_main dev_command dev_flags text equal
    dev_main-total setup file input_file =
        let required = text "subject" ∷ text "name" ∷ text "input" ∷ [] in
        let ps = root_command cobra ∷ [] in
        bind-total (cobra.parse (dev_command cobra ∷ ps) args) _ (parse_total _ args) (λ p parsed.
          let own =
            value_read cobra laws (text "dev") dev_flags required dev_flags-IsDistinct ps args p
              parsed in
          bind-total (path_arg stat_error p.1) _ (path_arg-total stat_error p.1) (λ filename e.
            bind-total (flag_value cobra p.0 (text "library")) _ (own (text "library") [] refl)
              (λ library e.
                bind-total (flag_value cobra p.0 (text "pluginDir")) _
                  (own (text "pluginDir") [] refl)
                  (λ plugin_dir e.
                    bind-total (names_of cobra p.0) _
                      (names_read cobra laws (text "dev") dev_flags required dev_flags-IsDistinct ps
                        args p parsed refl refl)
                      (λ names e.
                        bind-total (flag_value cobra p.0 (text "input")) _
                          (own (text "input") [] refl)
                          (λ input e.
                            bind-total (flag_value cobra p.0 (text "executor")) _
                              (executor_read cobra laws (text "dev") dev_flags required
                                dev_flags-IsDistinct ps args p parsed
                                (inherited-root cobra laws root_flags-IsDistinct) refl)
                              (λ executor e h. cc)))))))

    -- Whatever the arguments, no command reads the value of a flag that was not registered, which
    -- would be a nil pointer, and `add`, `dev` and `devhttp` have the path that they read, if the
    -- parsing of the arguments does not panic.
    pub mains-total :
        (client : EtcdClient) (codec : ScriptCodec) (o : Outside client) (files : Files)
        (setup : Bytes → Bytes → DevSetup Preload) (around : Bytes → Around Preload)
        (file : Bytes → Result Bytes) (input_file : Bytes → Option (Result Bytes))
        → (add_main cobra client codec o stat_error file args ≢ panic)
          × (rm_main cobra client codec o args ≢ panic)
          × (list_main cobra client codec o args ≢ panic)
          × (lib_add_main cobra client codec o files args ≢ panic)
          × (dev_main cobra setup stat_error file input_file args ≢ panic)
          × (dev_http_main cobra around stat_error args ≢ panic)
    mains-total client codec o files setup around file input_file = (
      add_main-total client codec o stat_error file,
      rm_main-total client codec o,
      list_main-total client codec o,
      lib_add_main-total client codec o files,
      dev_main-total setup file input_file,
      dev_http_main-total around,
    )
