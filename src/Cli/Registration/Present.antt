-- ===== src/Cli/Registration/Present.antt =====
-- That a command of cmd/cli finds a flag that it or a parent registered, whatever the arguments.
use msgscript.Base.{
  List, [], ◌∷◌, Option, none, some, Bytes, text, equal, Result, ok, err, panic, ◌>>=◌, ◌≡◌, ◌≢◌,
  refl, arith,
}
use msgscript.Cli.{validate_arg_is_path}
use msgscript.Cli.Registration.{root_flags, command, path_arg, flag_value, store_flags, names_of}
use msgscript.Cli.Cobra.{Command, Cobra, CobraLaws, Flag, inherited}
use msgscript.Cli.Registration.Found.{
  find, flag-command, flag-inherited, IsDistinct, flag_value-some,
}

pub bind-total {ℓ κ} :
    {A : Type ℓ} {B : Type κ} (r : Result A) (k : A → Result B)
    → r ≢ panic
    → ((v : A) → r ≡ ok v → k v ≢ panic)
    → (r >>= k) ≢ panic
bind-total (ok v) k total next = next v refl
bind-total (err e) k total next = λ h. cc
bind-total panic k total next = absurd (total refl)

pub path_arg-total :
    (stat_error : Bytes → Option Bytes) (args : List Bytes) → path_arg stat_error args ≢ panic
unfolding path_arg validate_arg_is_path
path_arg-total stat_error [] = ground arith
path_arg-total stat_error (a ∷ []) = ground arith
path_arg-total stat_error (a ∷ b ∷ args) = ground arith

module _ (cobra : Cobra) (cs : List (Command cobra.FlagSet)) where
  abbrev IsFlag : Bytes → Type 0
  IsFlag name = (v : Bytes) × (cobra.flag cs name ≡ some v)

  flag_value-total : (name : Bytes) → IsFlag name → flag_value cobra cs name ≢ panic
  flag_value-total name (v, h) p = let e = flag_value-some cobra cs name v h in cc

  store_flags-total :
      IsFlag (text "backend") → IsFlag (text "etcdurls") → store_flags cobra cs ≢ panic
  unfolding store_flags
  store_flags-total backend urls =
      bind-total (flag_value cobra cs (text "backend")) _
        (flag_value-total (text "backend") backend)
        (λ b e.
          bind-total (flag_value cobra cs (text "etcdurls")) _
            (flag_value-total (text "etcdurls") urls) (λ u e'. λ h. cc))

  names_of-total : IsFlag (text "subject") → IsFlag (text "name") → names_of cobra cs ≢ panic
  unfolding names_of
  names_of-total subject name =
      bind-total (flag_value cobra cs (text "subject")) _
        (flag_value-total (text "subject") subject)
        (λ b e.
          bind-total (flag_value cobra cs (text "name")) _ (flag_value-total (text "name") name)
            (λ u e'. λ h. cc))

module _ (cobra : Cobra) (laws : CobraLaws cobra) where
  -- What is registered is found behind the parsing too.
  module _ (use_line : Bytes) (fs : List Flag) (names : List Bytes) (distinct : IsDistinct fs)
      (ps : List (Command cobra.FlagSet)) (args : List Bytes)
      (p : List (Command cobra.FlagSet) × List Bytes)
      (parsed : cobra.parse (command cobra use_line fs names ∷ ps) args ≡ ok p) where
    own-IsFlag : (name v : Bytes) → find name fs ≡ some v → IsFlag cobra p.0 name
    own-IsFlag name v h =
        laws.parse_keeps (command cobra use_line fs names ∷ ps) p.0 args p.1 name v parsed
          (flag-command cobra laws use_line fs names distinct ps name v h)

    pub value_read : (name v : Bytes) → find name fs ≡ some v → flag_value cobra p.0 name ≢ panic
    value_read name v h = flag_value-total cobra p.0 name (own-IsFlag name v h)

    pub names_read :
        find (text "subject") fs ≡ some []
        → find (text "name") fs ≡ some []
        → names_of cobra p.0 ≢ panic
    names_read subject name =
        names_of-total cobra p.0 (own-IsFlag (text "subject") [] subject)
          (own-IsFlag (text "name") [] name)

    module _
        (below : (name v : Bytes)
          → find name root_flags ≡ some v
          → inherited cobra.lookup ps name ≡ some v) where
      root-IsFlag :
          (name v : Bytes)
          → find name fs ≡ none
          → find name root_flags ≡ some v
          → IsFlag cobra p.0 name
      root-IsFlag name v other h =
          laws.parse_keeps (command cobra use_line fs names ∷ ps) p.0 args p.1 name v parsed
            (flag-inherited cobra laws use_line fs names distinct ps name v other (below name v h))

      pub store_read :
          find (text "backend") fs ≡ none
          → find (text "etcdurls") fs ≡ none
          → store_flags cobra p.0 ≢ panic
      unfolding root_flags text equal
      store_read backend urls =
          store_flags-total cobra p.0 (root-IsFlag (text "backend") (text "etcd") backend refl)
            (root-IsFlag (text "etcdurls") (text "localhost:2379") urls refl)

      pub executor_read :
          find (text "executor") fs ≡ none → flag_value cobra p.0 (text "executor") ≢ panic
      unfolding root_flags text equal
      executor_read other =
          flag_value-total cobra p.0 (text "executor")
            (root-IsFlag (text "executor") (text "lua") other refl)
