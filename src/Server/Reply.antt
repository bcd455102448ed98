-- ===== src/Server/Reply.antt =====
-- cmd/server/reply.go: replies and how they are sent.
use msgscript.Base.{Bool, false, List, [], ◌∷◌, Bytes, equal, Result, ok, err, panic, if◌then◌else◌}
use msgscript.Executor.{Message, ScriptResult}

pub record Reply : Type 0 where
  pub results : List ScriptResult
  pub html : Bool
  pub error : Bytes

-- `new(Reply)`
abbrev pub new_reply : Reply
new_reply = record { results = []; html = false; error = [] }

-- encoding/json at the types that the server sends and receives. `unmarshal_message` gives what it
-- left in the message, and whether it returned an error.
pub record Json : Type 0 where
  pub marshal_reply : Reply → Result Bytes
  pub unmarshal_reply : Bytes → Result Reply
  pub marshal_message : Message → Result Bytes
  pub unmarshal_message : Bytes → Message × Bool
  pub marshal_strings : List Bytes → Result Bytes
  pub unmarshal_strings : Bytes → Result (List Bytes)
  pub marshal_results : List ScriptResult → Result Bytes

-- A call of `nc.Publish`: the subject and the data.
abbrev pub Publish : Type 0
Publish = Bytes × Bytes

-- The bytes that a call of `json.Marshal` leaves beside its error.
abbrev pub bytes_of : Result Bytes → Bytes
bytes_of (ok b) = b
bytes_of (err e) = []
bytes_of panic = []

module _ (json : Json) where
  -- `replyMessage`: what it publishes. Nobody reads more of its error than that there is one.
  unfoldable pub reply_message : Bytes → Reply → List Publish
  reply_message reply_subject rep =
      if equal reply_subject [] then [] else elim (json.marshal_reply rep) [
        | ok payload ↦ (reply_subject, payload) ∷ []
        | err e ↦ []
        | panic ↦ []
      ]

  -- `replyWithError`
  unfoldable pub reply_with_error : Bytes → Bytes → List Publish
  reply_with_error res_err reply_subject =
      (reply_subject, bytes_of (json.marshal_reply (record new_reply { error = res_err }))) ∷ []
