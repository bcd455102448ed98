-- ===== src/Server/Dispatch.antt =====
-- cmd/server/main.go: the handler of the subscription to all subjects. Tracing and logging are left
-- out. What the executors return is a parameter, since they run side by side: it covers each
-- interleaving of their uses of the store.
pub mod Collecting
pub mod Channel
pub mod Replies
pub mod LuaRun
pub mod Info
pub mod Subjects
use msgscript.Base.{
  Bool, true, false, ◌||◌, List, [], ◌∷◌, ◌++◌, Option, none, some, map, Bytes, text, equal, Result,
  ok, err, panic, if◌then◌else◌,
}
use msgscript.Base.GoMap
use msgscript.Base.GoMap.{GoMap}
use msgscript.Base.Strings.{split, has_prefix}
use msgscript.Script.{Script}
use msgscript.Store.Interface.{ScriptStore}
use msgscript.Executor.{
  Message, new_message, ScriptResult, new_result, Handled, returned, nil_result, panicked, Executor,
  executor_by_name,
}
use msgscript.Server.Reply.{Reply, new_reply, Json, Publish, reply_message, reply_with_error}
use msgscript.Server.Requests.{
  Outcome, subject_list_scripts, subject_list_names_for_script, subject_info_named_script,
  reply_with_subject_list, reply_with_names_for_subject, reply_with_named_script_info,
}

-- `nats.Msg`
pub record NatsMsg : Type 0 where
  pub subject : Bytes
  pub reply : Bytes
  pub body : Bytes

-- What a run takes from outside: the error of `nc.Publish`, the results of the executors, and the
-- order in which they reach the channel.
pub record Surroundings : Type 0 where
  pub json : Json
  pub publish_error : Bytes → Bytes → Option Bytes
  pub executors : GoMap (Option Executor)
  pub run : Executor → Message → Script → Handled
  pub arrival : GoMap Script → List Script

-- The part of the results loop that is done.
pub data Collected : Type 0 where
  replied : Reply → Collected
  nil_dereference : Collected

-- `res.IsHTML` and the two writes to the reply.
abbrev pub collect_result : ScriptResult → Reply → Reply
collect_result res rep = record {
  results = rep.results ++ (res ∷ []);
  html = if res.is_html then true else rep.html;
  error = rep.error;
}

-- `for res := range allResults`; a panic in a goroutine has ended the process before.
unfoldable pub collect : List Handled → Reply → Collected
collect [] rep = replied rep
collect (returned res ∷ results) rep = collect results (collect_result res rep)
collect (nil_result ∷ results) rep = nil_dereference
collect (panicked ∷ results) rep = nil_dereference

-- `json.Unmarshal`, and the three writes behind its error.
unfoldable pub parsed_message : NatsMsg → Message × Bool → Message
parsed_message msg (m, true) = record m {
  subject = msg.subject;
  payload = some msg.body;
  raw = true;
}
parsed_message msg (m, false) = m

-- `if m.Payload == nil`
unfoldable pub whole_if_nil : NatsMsg → Message → Option Bytes → Message
whole_if_nil msg m none = record new_message { subject = msg.subject; payload = some msg.body }
whole_if_nil msg m (some payload) = m

module _ (env : Surroundings) where
  -- The message that the data is taken for.
  unfoldable pub received_message : NatsMsg → Message
  unfolding parsed_message whole_if_nil
  received_message msg =
      let m = parsed_message msg (env.json.unmarshal_message msg.body) in
      whole_if_nil msg m m.payload

  handled_by : Message → Script → Result Executor → Handled
  handled_by m scr (ok exec) = env.run exec m scr
  handled_by m scr (err e) =
      returned (record new_result { error = text "failed to get executor for script: " ++ e })
  handled_by m scr panic = panicked

  -- The body of the goroutine of a script.
  unfoldable pub handled : Message → Script → Handled
  unfolding handled_by
  handled m scr = handled_by m scr (executor_by_name scr.executor env.executors)

  unfoldable pub send_collected : Bytes → Collected → List Publish × Bool
  send_collected reply_subject (replied rep) = (reply_message env.json reply_subject rep, false)
  send_collected reply_subject nil_dereference = ([], true)

  -- Behind `GetScripts`.
  unfoldable pub run_scripts : Message → Bytes → Result (GoMap Script) → List Publish × Bool
  unfolding send_collected collect
  run_scripts m reply_subject (ok scripts) =
      send_collected reply_subject (collect (map (handled m) (env.arrival scripts)) new_reply)
  run_scripts m reply_subject (err e) = (
    reply_with_error env.json (text "failed to get scripts for subject: " ++ e) reply_subject,
    false,
  )
  run_scripts m reply_subject panic = ([], true)

  -- `nc.Publish(msg.Reply, []byte("{}"))` of an asynchronous message, and its error.
  unfoldable pub acknowledge : Message → Bytes → List Publish × Option Bytes
  acknowledge m reply_subject =
      if m.async
      then ((reply_subject, text "{}") ∷ [], env.publish_error reply_subject (text "{}"))
      else ([], none)

  acknowledged :
      Message → Bytes → Result (GoMap Script) → List Publish × Option Bytes → List Publish × Bool
  acknowledged m reply_subject scripts (sent, none) =
      let (more, crashed) = run_scripts m reply_subject scripts in (sent ++ more, crashed)
  acknowledged m reply_subject scripts (sent, some e) = (
    sent ++ reply_with_error env.json (text "failed to reply to message: " ++ e) reply_subject,
    false,
  )

  module _ (store : ScriptStore) where
    -- The message is not one of the requests about scripts.
    unfoldable pub handle_script_message : NatsMsg → store.State → Outcome store.State
    unfolding acknowledged received_message
    handle_script_message msg st =
        let m = received_message msg in
        let (published, crashed) =
          acknowledged m msg.reply (store.get_scripts m.subject st) (acknowledge m msg.reply) in
        record { published = published; crashed = crashed; state = st }

    -- The request for a script: `ss[0]` and `ss[1]`, behind a test that does not return.
    handle_info : Bytes → List Bytes → store.State → Outcome store.State
    handle_info reply_subject (subject ∷ name ∷ []) st =
        reply_with_named_script_info env.json store subject name reply_subject st
    handle_info reply_subject (subject ∷ name ∷ more ∷ rest) st =
        let rep = reply_with_named_script_info env.json store subject name reply_subject st in
        record rep {
          published =
              reply_with_error env.json (text "invalid request") reply_subject ++ rep.published;
        }
    handle_info reply_subject _ st = record {
      published = reply_with_error env.json (text "invalid request") reply_subject;
      crashed = true;
      state = st;
    }

    -- The function that `nc.Subscribe` is given.
    unfoldable pub handle_message : NatsMsg → store.State → Outcome store.State
    unfolding handle_script_message handle_info
    handle_message msg st =
        if has_prefix msg.subject (text "_INBOX.")
        then record { published = []; crashed = false; state = st }
        else if equal msg.subject subject_list_scripts
        then reply_with_subject_list env.json store msg.reply st
        else if equal msg.subject subject_list_names_for_script
        then reply_with_names_for_subject env.json store msg.body msg.reply st
        else if equal msg.subject subject_info_named_script
        then handle_info msg.reply (split b',' msg.body) st
        else handle_script_message msg st
