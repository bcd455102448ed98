-- ===== src/Cli/Registration/Found.antt =====
-- The flags of a command of cmd/cli and of its parent, by their registrations.
use msgscript.Base.{
  List, [], ◌∷◌, Option, none, some, Bytes, text, equal, ok, ◌≡◌, refl, ap, ◌∙◌, if◌then◌else◌, All,
}
use msgscript.Cli.Registration.{
  root_flags, names_flags, dev_flags, registered, marked, command, root_command, flag_value,
  lib_command, lib_add_flags, dev_http_flags, store_flags, names_of,
}
use msgscript.Cli.Cobra.{
  Flag, flag_name, default_value, Command, Cobra, CobraLaws, IsPositional, first_of, inherited,
}

abbrev pub find : Bytes → List Flag → Option Bytes
find name [] = none
find name (f ∷ fs) =
    let rest = find name fs in if equal (flag_name f) name then some (default_value f) else rest

-- No flag is registered twice.
abbrev pub IsDistinct : List Flag → Type 0
IsDistinct [] = Unit
IsDistinct (f ∷ fs) = (find (flag_name f) fs ≡ none) × IsDistinct fs

module _ (cobra : Cobra) (laws : CobraLaws cobra) where
  lookup-registered :
      (fs : List Flag)
      → IsDistinct fs
      → (name : Bytes) → cobra.lookup name (registered cobra fs) ≡ find name fs
  unfolding registered
  lookup-registered [] d name = laws.lookup_new name
  lookup-registered (f ∷ fs) d name =
      laws.lookup_register f (registered cobra fs) name
        (lookup-registered fs d.1 (flag_name f) ∙ d.0)
      ∙ rw (lookup-registered fs d.1 name) refl

  required-registered : (fs : List Flag) → IsDistinct fs → cobra.required (registered cobra fs) ≡ []
  unfolding registered
  required-registered [] d = laws.required_new
  required-registered (f ∷ fs) d =
      laws.required_register f (registered cobra fs) (lookup-registered fs d.1 (flag_name f) ∙ d.0)
      ∙ required-registered fs d.1

  -- The flags that are marked are none of `Flags()`.
  marked-new : (names : List Bytes) → marked cobra names cobra.new_flag_set ≡ cobra.new_flag_set
  unfolding marked
  marked-new [] = refl
  marked-new (name ∷ names) =
      let (e, missing) = laws.mark_missing name cobra.new_flag_set (laws.lookup_new name) in
      rw missing (marked-new names)

  required-marked :
      (names : List Bytes) → cobra.required (marked cobra names cobra.new_flag_set) ≡ []
  required-marked names = ap cobra.required (marked-new names) ∙ laws.required_new

  lookup-marked :
      (names : List Bytes) (name : Bytes)
      → cobra.lookup name (marked cobra names cobra.new_flag_set) ≡ none
  lookup-marked names name = ap (cobra.lookup name) (marked-new names) ∙ laws.lookup_new name

  module _ (use_line : Bytes) (fs : List Flag) (names : List Bytes) (distinct : IsDistinct fs) where
    pub flag-command :
        (cs : List (Command cobra.FlagSet)) (name v : Bytes)
        → find name fs ≡ some v
        → cobra.flag (command cobra use_line fs names ∷ cs) name ≡ some v
    unfolding command
    flag-command cs name v h =
        laws.flag_persistent (command cobra use_line fs names) cs name v (lookup-marked names name)
          (lookup-registered fs distinct name ∙ h)

  module _ (use_line : Bytes) (fs : List Flag) (names : List Bytes) (distinct : IsDistinct fs) where
    pub flag-inherited :
        (ps : List (Command cobra.FlagSet)) (name v : Bytes)
        → find name fs ≡ none
        → inherited cobra.lookup ps name ≡ some v
        → cobra.flag (command cobra use_line fs names ∷ ps) name ≡ some v
    unfolding command
    flag-inherited ps name v other h =
        laws.flag_parent (command cobra use_line fs names) ps name v (lookup-marked names name)
          (lookup-registered fs distinct name ∙ other) h

  module _ (root_distinct : IsDistinct root_flags) where
    pub inherited-root :
        (name v : Bytes)
        → find name root_flags ≡ some v
        → inherited cobra.lookup (root_command cobra ∷ []) name ≡ some v
    unfolding command root_command
    inherited-root name v h =
        ap (λ o. first_of o none) (lookup-registered root_flags root_distinct name ∙ h)

    pub inherited-lib :
        (name v : Bytes)
        → find name root_flags ≡ some v
        → inherited cobra.lookup (lib_command cobra ∷ root_command cobra ∷ []) name ≡ some v
    unfolding command lib_command registered
    inherited-lib name v h =
        ap (λ o. first_of o (inherited cobra.lookup (root_command cobra ∷ []) name))
          (laws.lookup_new name)
        ∙ inherited-root name v h

  module _ (use_line : Bytes) (fs : List Flag) (names : List Bytes) (distinct : IsDistinct fs)
      (root_distinct : IsDistinct root_flags) where
    pub flag-root :
        (name v : Bytes)
        → find name fs ≡ none
        → find name root_flags ≡ some v
        → cobra.flag (command cobra use_line fs names ∷ root_command cobra ∷ []) name ≡ some v
    flag-root name v other h =
        flag-inherited use_line fs names distinct (root_command cobra ∷ []) name v other
          (inherited-root root_distinct name v h)

    pub parse-command :
        (args : List Bytes)
        → All IsPositional args
        → cobra.parse (command cobra use_line fs names ∷ root_command cobra ∷ []) args
          ≡ ok (command cobra use_line fs names ∷ root_command cobra ∷ [], args)
    unfolding command root_command
    parse-command args positional =
        laws.parse_positional (command cobra use_line fs names) (root_command cobra) args
          (required-marked names) (required-registered fs distinct)
          (required-registered root_flags root_distinct) positional

pub root_flags-IsDistinct : IsDistinct root_flags
unfolding root_flags text equal
root_flags-IsDistinct = (refl, (refl, (refl, (refl, (refl, tt)))))

pub names_flags-IsDistinct : IsDistinct names_flags
unfolding names_flags text equal
names_flags-IsDistinct = (refl, (refl, tt))

pub dev_flags-IsDistinct : IsDistinct dev_flags
unfolding dev_flags text equal
dev_flags-IsDistinct = (refl, (refl, (refl, (refl, (refl, tt)))))

pub lib_add_flags-IsDistinct : IsDistinct lib_add_flags
unfolding lib_add_flags text equal
lib_add_flags-IsDistinct = (refl, (refl, tt))

pub dev_http_flags-IsDistinct : IsDistinct dev_http_flags
unfolding dev_http_flags text equal
dev_http_flags-IsDistinct = (refl, (refl, tt))

module _ (cobra : Cobra) (cs : List (Command cobra.FlagSet)) where
  pub flag_value-some :
      (name v : Bytes) → cobra.flag cs name ≡ some v → flag_value cobra cs name ≡ ok v
  unfolding flag_value
  flag_value-some name v h = rw (flag_value, h) refl

  pub store_flags-some :
      (b u : Bytes)
      → cobra.flag cs (text "backend") ≡ some b
      → cobra.flag cs (text "etcdurls") ≡ some u
      → store_flags cobra cs ≡ ok (record { backend = b; etcd_urls = u })
  unfolding store_flags
  store_flags-some b u backend urls =
      rw (flag_value-some (text "backend") b backend, flag_value-some (text "etcdurls") u urls) refl

  pub names_of-some :
      (subject name : Bytes)
      → cobra.flag cs (text "subject") ≡ some subject
      → cobra.flag cs (text "name") ≡ some name
      → names_of cobra cs ≡ ok (record { subject = subject; name = name })
  unfolding names_of
  names_of-some subject name asked named =
      rw (flag_value-some (text "subject") subject asked, flag_value-some (text "name") name named)
        refl
