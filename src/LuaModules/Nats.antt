-- ===== src/LuaModules/Nats.antt =====
-- lua/nats.go: publishing from a script.
use msgscript.Base.{true, false, List, [], ◌∷◌, ◌++◌, Option, none, some, Bytes, text}
use msgscript.LuaModules.{LuaValue, nil, bool, string, returned}

-- `natsPublish`, given what `nc.Publish` returns; without a connection it is not called.
unfoldable pub nats_publish : Option (Bytes → Bytes → Option Bytes) → Bytes → Bytes → List LuaValue
unfolding returned
nats_publish connection subject payload =
    let stack = string subject ∷ string payload ∷ [] in
    elim connection [
      | none ↦ returned 2 (stack ++ bool false ∷ string (text "Not connected to NATS") ∷ [])
      | some publish ↦ elim (publish subject payload) [
        | none ↦ returned 2 (stack ++ bool true ∷ nil ∷ [])
        | some e ↦
            returned 2 (stack ++ bool false ∷ string (text "Failed to publish message: " ++ e) ∷ [])
      ]
    ]
