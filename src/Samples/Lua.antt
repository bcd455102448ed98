-- ===== src/Samples/Lua.antt =====
-- A Lua machine on which `(` does not parse, `GET` and `OnMessage` give back their arguments, and
-- `POST` fails.
use msgscript.Base.{
  true, false, List, [], ◌∷◌, none, some, Bytes, text, equal, ok, err, if◌then◌else◌,
}
use msgscript.Base.Int.{pos}
use msgscript.Executor.Lua.Vm.{LuaVm, TempDir}

pub data Value : Type 0 where
  nil echo fail : Value
  string : Bytes → Value

abbrev pub strings : List Bytes → List Value
strings [] = []
strings (s ∷ ss) = string s ∷ strings ss

abbrev pub sample_vm : LuaVm
sample_vm = record {
  State = Unit {0};
  Value = Value;
  nil_value = Value.nil;
  is_nil = λ v. elim v [ Value.nil ↦ true | _ ↦ false ];
  plugin_error = none;
  do_string = λ b. if equal b (text "(") then err (text "unexpected symbol") else ok (tt, []);
  get_global = λ name st.
      if equal name (text "POST")
      then Value.fail
      else if equal name (text "GET")
      then Value.echo
      else if equal name (text "OnMessage")
      then Value.echo
      else Value.nil;
  call = λ f n args st. elim f [ Value.echo ↦ ok (strings args) | _ ↦ err (text "boom") ];
  as_string = λ v. elim v [ Value.string s ↦ s | _ ↦ [] ];
  as_number = λ v. pos 0;
  string_of = λ v. elim v [ Value.string s ↦ some s | _ ↦ none ];
  table_of = λ v. none;
}

abbrev pub temp_dir : TempDir
temp_dir = record { made = ok tt; entered = ok tt }
