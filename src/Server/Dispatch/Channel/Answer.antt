-- ===== src/Server/Dispatch/Channel/Answer.antt =====
-- The reply to a message, whatever the order in which its scripts come to their ends.
use mathlib.Core.List.{Permᴰ, Memᴰ}
use msgscript.Base.{
  some, false, List, [], ◌∷◌, ◌++◌, none, map, ◌≡◌, ◌≢◌, refl, ◌∙◌, All, All-Permᴰ, Memᴰ-Permᴰ,
  Bytes, ok,
}
use msgscript.Base.GoMap
use msgscript.Base.GoMap.{GoMap}
use msgscript.Script.{Script}
use msgscript.Store.Interface.{ScriptStore}
use msgscript.Executor.{Message, ScriptResult, Handled, returned}
use msgscript.Server.Dispatch.{
  NatsMsg, Surroundings, received_message, handled, acknowledge, handle_message,
}
use msgscript.Server.Dispatch.Collecting.{reply_of}
use msgscript.Server.Dispatch.Replies.{IsScriptSubject, handle_message-replies}
use msgscript.Server.Dispatch.Channel.{Pool, spawn, Reach}
use msgscript.Server.Dispatch.Channel.Order.{finished}

map-All :
    (work : Script → Handled) (result : Script → ScriptResult) (scripts : List Script)
    → All (λ scr. work scr ≡ returned (result scr)) scripts
    → map work scripts ≡ map returned (map result scripts)
map-All work result [] h = refl
map-All work result (scr ∷ scripts) h = rw (h.0, map-All work result scripts h.1) refl

-- The goroutines of the scripts have all sent, each script has returned a result, and the results
-- arrived as they stand in the channel.
abbrev pub IsRun : Surroundings → Message → GoMap Script → (Script → ScriptResult) → Pool → Type 0
IsRun env m scripts result end =
    All (λ scr. handled env m scr ≡ returned (result scr)) (GoMap.values scripts)
    × Reach (handled env m) (spawn (GoMap.values scripts)) end
    × (end.waiting ≡ [])
    × (map (handled env m) (env.arrival scripts) ≡ end.channel)

-- The results that arrived are those of the scripts, in some order.
pub results_of :
    (env : Surroundings) (m : Message) (scripts : GoMap Script) (result : Script → ScriptResult)
    (end : Pool)
    → IsRun env m scripts result end
    → (order : List Script) × Permᴰ order (GoMap.values scripts)
      × (end.channel ≡ map returned (map result order))
      × (map (handled env m) (env.arrival scripts) ≡ map returned (map result order))
results_of env m scripts result end (results, reached, over, arrived) =
    let (order, same, channel) = finished (handled env m) (GoMap.values scripts) end reached over in
    let sent =
      channel
      ∙ map-All (handled env m) result order
          (All-Permᴰ (λ scr. handled env m scr ≡ returned (result scr)) same results) in
    (order, same, sent, arrived ∙ sent)

module _ (env : Surroundings) (store : ScriptStore) where
  -- However the goroutines of the scripts interleave: where the store gives the scripts of a script
  -- subject, an acknowledgement that is due is published, each script of the subject returns a
  -- result, and all of their goroutines have sent, the reply to a message with a reply subject
  -- lists the result of each script once, in the order of the sending, where every reply of these results encodes as JSON.
  pub handle_message-finished :
      (msg : NatsMsg) (st : store.State) (scripts : GoMap Script) (result : Script → ScriptResult)
      (end : Pool) (encode : List Script → Bytes)
      → IsScriptSubject msg.subject
      → let m = received_message env msg in
        store.get_scripts m.subject st ≡ ok scripts
        → (acknowledge env m msg.reply).1 ≡ none
        → IsRun env m scripts result end
        → msg.reply ≢ []
        → ((order : List Script)
            → env.json.marshal_reply (reply_of (map result order)) ≡ ok (encode order))
        → (order : List Script) × Permᴰ order (GoMap.values scripts)
          × (end.channel ≡ map returned (map result order))
          × (handle_message env store msg st ≡ record {
            published = (acknowledge env m msg.reply).0 ++ (msg.reply, encode order) ∷ [];
            crashed = false;
            state = st;
          })
  handle_message-finished msg st scripts result end encode ordinary got sent ran ne encoded =
      let m = received_message env msg in
      let (order, same, sent_as, results) = results_of env m scripts result end ran in
      (
        order,
        same,
        sent_as,
        handle_message-replies env store msg st scripts (map result order) (encode order) ordinary
            got sent results ne (encoded order),
      )

  -- A script that stands in the map of the subject has its result in the reply.
  pub handle_message-found :
      (msg : NatsMsg) (st : store.State) (scripts : GoMap Script) (result : Script → ScriptResult)
      (end : Pool) (encode : List Script → Bytes) (key : Bytes) (scr : Script)
      → IsScriptSubject msg.subject
      → let m = received_message env msg in
        store.get_scripts m.subject st ≡ ok scripts
        → (acknowledge env m msg.reply).1 ≡ none
        → IsRun env m scripts result end
        → msg.reply ≢ []
        → ((order : List Script)
            → env.json.marshal_reply (reply_of (map result order)) ≡ ok (encode order))
        → GoMap.lookup key scripts ≡ some scr
        → (order : List Script) × Memᴰ scr order
          × Permᴰ order (GoMap.values scripts)
          × (end.channel ≡ map returned (map result order))
          × (handle_message env store msg st ≡ record {
            published = (acknowledge env m msg.reply).0 ++ (msg.reply, encode order) ∷ [];
            crashed = false;
            state = st;
          })
  handle_message-found msg st scripts result end encode key scr ordinary got sent ran ne encoded
        found =
      let (order, same, sent_as, answer) =
        handle_message-finished msg st scripts result end encode ordinary got sent ran ne encoded in
      (order, Memᴰ-Permᴰ same (GoMap.Memᴰ-values key scripts found), same, sent_as, answer)
