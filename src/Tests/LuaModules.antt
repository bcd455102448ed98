-- ===== src/Tests/LuaModules.antt =====
-- The modules for scripts and the plugins, at concrete inputs.
use msgscript.Base.{[], none, some, Bytes, ok}
use msgscript.Base.GoMap.{GoMap}
use msgscript.LuaModules.Vault.{VaultClient, as_fields}

-- A Vault that keeps one secret, whatever its path.
abbrev sample_vault : VaultClient
sample_vault = record {
  Server = GoMap Bytes;
  write = λ path written s. (ok tt, written);
  read = λ path s. ok (some (record { fields = some (as_fields s); keys = none }));
  delete = λ path s. (ok tt, []);
  list = λ path s. ok none;
  new_client = ok tt;
  bad_verb = λ e. e;
}
