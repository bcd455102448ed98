-- ===== src/Samples/Cobra.antt =====
-- Flags as a map, with the names of the required ones, and a parsing for arguments without flags.
use mathlib.Core.List.{◌++◌}
use msgscript.Base.{
  List, [], ◌∷◌, Option, none, some, ◌≡◌, ◌≢◌, refl, sym, ap, ◌∙◌, Bytes, text, Result, ok, err,
  panic,
}
use msgscript.Base.GoMap
use msgscript.Base.GoMap.{GoMap}
use msgscript.Cli.Cobra.{flag_name, default_value, Command, Cobra, CobraLaws, first_of, inherited}

pub record FlagMap : Type 0 where
  pub values : GoMap Bytes
  pub required : List Bytes

abbrev pub find_flag : Bytes → FlagMap → Option Bytes
find_flag name fs = GoMap.lookup name fs.values

abbrev any_flag : List (Command FlagMap) → Bytes → Option Bytes
any_flag [] name = none
any_flag (c ∷ cs) name = first_of (find_flag name c.flags) (inherited find_flag (c ∷ cs) name)

abbrev persistent_required : List (Command FlagMap) → List Bytes
persistent_required [] = []
persistent_required (c ∷ cs) = c.persistent.required ++ persistent_required cs

abbrev all_required : List (Command FlagMap) → List Bytes
all_required [] = []
all_required (c ∷ cs) = c.flags.required ++ persistent_required (c ∷ cs)

abbrev parsed_args :
    List (Command FlagMap) → List Bytes → List Bytes → Result (List (Command FlagMap) × List Bytes)
parsed_args cs args [] = ok (cs, args)
parsed_args cs args (name ∷ names) = err (text "required flag(s) not set")

abbrev mark : Bytes → FlagMap → Option Bytes → Result (Unit {0}) × FlagMap
mark name fs none = (err (text "no such flag"), fs)
mark name fs (some v) = (ok tt, record fs { required = name ∷ fs.required })

abbrev pub map_cobra : Cobra
map_cobra = record {
  FlagSet = FlagMap;
  new_flag_set = record { values = []; required = [] };
  register = λ f fs. record fs { values = GoMap.insert (flag_name f) (default_value f) fs.values };
  lookup = find_flag;
  mark_required = λ name fs. mark name fs (find_flag name fs);
  required = λ fs. fs.required;
  flag = any_flag;
  parse = λ cs args. parsed_args cs args (all_required cs);
}

parsed_args-same :
    (cs cs' : List (Command FlagMap)) (args rest names : List Bytes)
    → parsed_args cs args names ≡ ok (cs', rest)
    → cs ≡ cs'
parsed_args-same cs cs' args rest [] h = cc
parsed_args-same cs cs' args rest (name ∷ names) h = cc

parsed_args-total :
    (cs : List (Command FlagMap)) (args names : List Bytes) → parsed_args cs args names ≢ panic
parsed_args-total cs args [] h = cc
parsed_args-total cs args (name ∷ names) h = cc

pub map_cobra-CobraLaws : CobraLaws map_cobra
map_cobra-CobraLaws = record {
  lookup_new = GoMap.lookup-nil;
  lookup_register =
      λ f fs name fresh. GoMap.lookup-insert (flag_name f) name (default_value f) fs.values;
  required_new = refl;
  required_register = λ f fs fresh. refl;
  mark_missing = λ name fs missing. (text "no such flag", ap (mark name fs) missing);
  flag_persistent = λ c cs name v none_own found.
      ap (λ o. first_of o (inherited find_flag (c ∷ cs) name)) none_own
      ∙ ap (λ o. first_of o (inherited find_flag cs name)) found;
  flag_parent = λ c ps name v none_own other found.
      ap (λ o. first_of o (inherited find_flag (c ∷ ps) name)) none_own
      ∙ ap (λ o. first_of o (inherited find_flag ps name)) other
      ∙ found;
  parse_positional = λ c p args own persistent parent positional. rw (own, persistent, parent) refl;
  parse_keeps = λ cs cs' args rest name v parsed found. (
    v,
    ap (λ l. any_flag l name) (sym (parsed_args-same cs cs' args rest (all_required cs) parsed))
        ∙ found,
  );
}

pub parse-total :
    (cs : List (Command FlagMap)) (args : List Bytes) → map_cobra.parse cs args ≢ panic
parse-total cs args h = parsed_args-total cs args (all_required cs) h
