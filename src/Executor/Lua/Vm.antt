-- ===== src/Executor/Lua/Vm.antt =====
-- What executor/lua_executor.go takes from others: the Lua machine (github.com/yuin/gopher-lua, with
-- the modules that the executor preloads into it) and the temporary folder of a run.
use msgscript.Base.{ℕ, Bool, List, Option, Bytes, Result}
use msgscript.Base.Int.{ℤ}

pub record LuaVm : Type 1 where
  pub State : Type 0
  pub Value : Type 0
  -- `lua.LNil`, and `Type().String() == "nil"`
  pub nil_value : Value
  pub is_nil : Value → Bool
  -- What `msgplugins.LoadPlugins` returns on the new state: `none`, or what `fmt.Sprintf` makes of the
  -- error, under a verb that it does not know.
  pub plugin_error : Option Bytes
  -- `L.DoString` on a new state: the state and the stack that the chunk leaves, its results from the
  -- bottom up, or the error.
  pub do_string : Bytes → Result (State × List Value)
  -- `L.GetGlobal`
  pub get_global : Bytes → State → Value
  -- `L.CallByParam` with `Protect`: the function, the number of results, the arguments. It returns
  -- the results, or the error.
  pub call : Value → ℕ → List Bytes → State → Result (List Value)
  -- `lua.LVAsString`, and `int(lua.LVAsNumber(…))`
  pub as_string : Value → Bytes
  pub as_number : Value → ℤ
  -- the type assertions to `lua.LString`, and to `*lua.LTable` with `LVAsString` of each key and
  -- value, in the order of `ForEach`
  pub string_of : Value → Option Bytes
  pub table_of : Value → Option (List (Bytes × Bytes))

-- What `os.MkdirTemp` and `os.Chdir` return.
pub record TempDir : Type 0 where
  pub made : Result (Unit {0})
  pub entered : Result (Unit {0})
