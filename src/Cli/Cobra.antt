-- ===== src/Cli/Cobra.antt =====
-- What cmd/cli takes from github.com/spf13/cobra and from its flags, github.com/spf13/pflag: the sets
-- of flags of a command, and the arguments that set them. What their documentation promises is a
-- record of named hypotheses.
use msgscript.Base.{
  false, List, [], ◌∷◌, Option, none, some, ◌≡◌, Bytes, text, equal, Bool, Result, ok, err,
  if◌then◌else◌, All,
}
use msgscript.Base.Strings.{has_prefix}

-- A call of `StringP`, `String` or `BoolP`, without the usage.
pub data Flag : Type 0 where
  string_p : (name shorthand value : Bytes) → Flag
  string : (name value : Bytes) → Flag
  bool_p : (name shorthand : Bytes) (value : Bool) → Flag

abbrev pub flag_name : Flag → Bytes
flag_name (string_p name shorthand value) = name
flag_name (string name value) = name
flag_name (bool_p name shorthand value) = name

-- The default, as `Value.String` writes it.
abbrev pub default_value : Flag → Bytes
default_value (string_p name shorthand value) = value
default_value (string name value) = value
default_value (bool_p name shorthand value) = if value then text "true" else text "false"

-- `Flags()` and `PersistentFlags()` of a command.
pub record Command (FlagSet : Type 0) : Type 0 where
  pub use_line : Bytes
  pub flags : FlagSet
  pub persistent : FlagSet

-- `lookup` is the text of a flag's value; `mark_required` is `MarkFlagRequired` on a command's
-- `Flags()`; `flag` is `Command.Flag` on a command with its parents, the nearest first; `parse` sets
-- the flags of these from the arguments behind the command's name, fails where a required one is
-- missing, and leaves the other arguments.
pub record Cobra : Type 1 where
  pub FlagSet : Type 0
  pub new_flag_set : FlagSet
  pub register : Flag → FlagSet → FlagSet
  pub lookup : Bytes → FlagSet → Option Bytes
  pub mark_required : Bytes → FlagSet → Result (Unit {0}) × FlagSet
  pub required : FlagSet → List Bytes
  pub flag : List (Command FlagSet) → Bytes → Option Bytes
  pub parse : List (Command FlagSet) → List Bytes → Result (List (Command FlagSet) × List Bytes)

abbrev pub first_of : Option Bytes → Option Bytes → Option Bytes
first_of (some v) rest = some v
first_of none rest = rest

-- The persistent flag of that name of the nearest parent.
abbrev pub inherited :
    {FlagSet : Type 0}
    → (Bytes → FlagSet → Option Bytes)
    → List (Command FlagSet)
    → Bytes
    → Option Bytes
inherited lookup [] name = none
inherited lookup (p ∷ ps) name = first_of (lookup name p.persistent) (inherited lookup ps name)

-- An argument that sets no flag.
abbrev pub IsPositional : Bytes → Type 0
IsPositional arg = has_prefix arg (text "-") ≡ false

pub record CobraLaws (cobra : Cobra) : Type 0 where
  pub lookup_new : (name : Bytes) → cobra.lookup name cobra.new_flag_set ≡ none
  pub lookup_register :
      (f : Flag) (fs : cobra.FlagSet) (name : Bytes)
      → cobra.lookup (flag_name f) fs ≡ none
      → cobra.lookup name (cobra.register f fs)
        ≡ (if equal (flag_name f) name then some (default_value f) else cobra.lookup name fs)
  pub required_new : cobra.required cobra.new_flag_set ≡ []
  pub required_register :
      (f : Flag) (fs : cobra.FlagSet)
      → cobra.lookup (flag_name f) fs ≡ none
      → cobra.required (cobra.register f fs) ≡ cobra.required fs
  pub mark_missing :
      (name : Bytes) (fs : cobra.FlagSet)
      → cobra.lookup name fs ≡ none
      → (e : Bytes) × (cobra.mark_required name fs ≡ (err e, fs))
  pub flag_persistent :
      (c : Command cobra.FlagSet) (cs : List (Command cobra.FlagSet)) (name v : Bytes)
      → cobra.lookup name c.flags ≡ none
      → cobra.lookup name c.persistent ≡ some v
      → cobra.flag (c ∷ cs) name ≡ some v
  pub flag_parent :
      (c : Command cobra.FlagSet) (ps : List (Command cobra.FlagSet)) (name v : Bytes)
      → cobra.lookup name c.flags ≡ none
      → cobra.lookup name c.persistent ≡ none
      → inherited cobra.lookup ps name ≡ some v
      → cobra.flag (c ∷ ps) name ≡ some v
  pub parse_positional :
      (c p : Command cobra.FlagSet) (args : List Bytes)
      → cobra.required c.flags ≡ []
      → cobra.required c.persistent ≡ []
      → cobra.required p.persistent ≡ []
      → All IsPositional args
      → cobra.parse (c ∷ p ∷ []) args ≡ ok (c ∷ p ∷ [], args)
  pub parse_keeps :
      (cs cs' : List (Command cobra.FlagSet)) (args rest : List Bytes) (name v : Bytes)
      → cobra.parse cs args ≡ ok (cs', rest)
      → cobra.flag cs name ≡ some v
      → (w : Bytes) × (cobra.flag cs' name ≡ some w)
