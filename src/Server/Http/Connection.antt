-- ===== src/Server/Http/Connection.antt =====
-- The connection between the HTTP side and the handler of messages: NATS carries a request to the
-- handler, and the first message that it publishes to the inbox is the response.
use msgscript.Base.{false, List, [], ◌∷◌, ◌≡◌, ◌≢◌, Bytes, Result, ok}
use msgscript.Store.Interface.{ScriptStore}
use msgscript.Executor.{Message}
use msgscript.Server.Reply.{Reply, Json, Publish}
use msgscript.Server.Dispatch.{Surroundings, handle_message}

-- The bytes are the JSON of the message, and decode to it.
abbrev pub IsMessageJson : Json → Message → Bytes → Type 0
IsMessageJson json m b = (json.marshal_message m ≡ ok b) × (json.unmarshal_message b ≡ (m, false))

-- The bytes are the JSON of the reply, and decode to it.
abbrev pub IsReplyJson : Json → Reply → Bytes → Type 0
IsReplyJson json rep b = (json.marshal_reply rep ≡ ok b) × (json.unmarshal_reply b ≡ ok rep)

-- Requests are answered by the handler, with the store in this state.
pub record Delivers (env : Surroundings) (store : ScriptStore) (st : store.State)
    (request : Bytes → Bytes → Result Bytes) : Type 0 where
  pub inbox : Bytes
  pub inbox_ne : inbox ≢ []
  pub delivers :
      (subject b response : Bytes) (more : List Publish)
      → (handle_message env store
          (record { subject = subject; reply = inbox; body = b })
          st).published
        ≡ (inbox, response) ∷ more
      → request subject b ≡ ok response
