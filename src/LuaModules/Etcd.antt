-- ===== src/LuaModules/Etcd.antt =====
-- lua/etcd.go: keys of etcd for scripts. The arguments have the types that the functions check for.
use msgscript.Base.{
  Bool, false, List, [], ◌∷◌, ◌++◌, ◌≡◌, refl, ap, ◌∙◌, Bytes, equal_refl, Result, ok, err, panic,
  if◌then◌else◌,
}
use msgscript.Base.GoMap.{GoMap}
use msgscript.Store.Etcd.Client.{EtcdClient, KeyLaws}
use msgscript.LuaModules.{LuaValue, nil, bool, string, kv, kv_table, returned}

-- `getKey` and `getValue` of `EtcdKV`, and `EtcdKV.new`
unfoldable pub kv_get_key : Bytes → Bytes → List LuaValue
unfolding returned
kv_get_key key value = returned 1 (kv key value ∷ string key ∷ [])

unfoldable pub kv_get_value : Bytes → Bytes → List LuaValue
unfolding returned
kv_get_value key value = returned 1 (kv key value ∷ string value ∷ [])

unfoldable pub new_etcd_kv : Bytes → Bytes → List LuaValue
unfolding returned
new_etcd_kv key value = returned 1 (string key ∷ string value ∷ kv key value ∷ [])

-- Behind the request: the stack, and its two results.
get_returned : List LuaValue → Result (GoMap Bytes) → Result (List LuaValue)
unfolding returned
get_returned stack (ok []) = ok (returned 2 (stack ++ nil ∷ nil ∷ []))
get_returned stack (ok (e ∷ kvs)) = ok (returned 2 (stack ++ kv_table (e ∷ kvs) ∷ nil ∷ []))
get_returned stack (err e) = ok (returned 2 (stack ++ nil ∷ string e ∷ []))
get_returned stack panic = panic

put_returned : List LuaValue → Result (Unit {0}) → Result (List LuaValue)
unfolding returned
put_returned stack (ok _) = ok (returned 1 (stack ++ nil ∷ []))
put_returned stack (err e) = ok (returned 1 (stack ++ string e ∷ []))
put_returned stack panic = panic

-- On an error one value is pushed, and two are announced.
delete_returned : List LuaValue → Result (Unit {0}) → Result (List LuaValue)
unfolding returned
delete_returned stack (ok _) = ok (returned 1 (stack ++ nil ∷ []))
delete_returned stack (err e) = ok (returned 2 (stack ++ string e ∷ []))
delete_returned stack panic = panic

module _ (client : EtcdClient) where
  -- `Get`
  unfoldable pub lua_get : Bytes → Bool → client.Server → Result (List LuaValue)
  unfolding get_returned
  lua_get key prefix s =
      get_returned (string key ∷ bool prefix ∷ [])
        (if prefix then client.get_prefix key s else client.get key s)

  -- `Put`
  unfoldable pub lua_put : Bytes → Bytes → client.Server → Result (List LuaValue) × client.Server
  unfolding put_returned
  lua_put key value s =
      let (r, s') = client.put key value s in (put_returned (string key ∷ string value ∷ []) r, s')

  -- `Delete`
  unfoldable pub lua_delete : Bytes → client.Server → Result (List LuaValue) × client.Server
  unfolding delete_returned
  lua_delete key s = let (r, s') = client.delete key s in (delete_returned (string key ∷ []) r, s')

  pair :
      (laws : KeyLaws client) (key value : Bytes) (s : client.Server) (kvs : GoMap Bytes)
      → (client.put key value s).0 ≡ ok tt
      → client.get key (client.put key value s).1 ≡ ok kvs
      → kvs ≡ (key, value) ∷ []
  pair laws key value s kvs put got =
      laws.get_contents key (client.put key value s).1 kvs got
      ∙ rw (laws.put_contents key value key s put, equal_refl key) refl

  -- What a script puts under a key it gets back from that key, as a table of one pair without an
  -- error, where etcd answers both requests.
  pub lua_get-lua_put :
      (laws : KeyLaws client) (key value : Bytes) (s : client.Server) (kvs : GoMap Bytes)
      → (client.put key value s).0 ≡ ok tt
      → client.get key (client.put key value s).1 ≡ ok kvs
      → lua_get key false (lua_put key value s).1 ≡ ok (kv_table ((key, value) ∷ []) ∷ nil ∷ [])
  unfolding lua_get lua_put get_returned returned
  lua_get-lua_put laws key value s kvs put got =
      ap (get_returned (string key ∷ bool false ∷ []))
        (got ∙ ap ok (pair laws key value s kvs put got))

  -- A script that reads the second value of a deletion for its error sees none only where there is
  -- none; but the first value is then the key, as if it were the error.
  pub lua_delete-error :
      (key e : Bytes) (s : client.Server)
      → (client.delete key s).0 ≡ err e
      → (lua_delete key s).0 ≡ ok (string key ∷ string e ∷ [])
  unfolding lua_delete delete_returned returned
  lua_delete-error key e s h = rw h refl
