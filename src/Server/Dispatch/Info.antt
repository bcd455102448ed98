-- ===== src/Server/Dispatch/Info.antt =====
-- The request for one script, whose body is the subject and the name with a comma between.
use msgscript.Base.{
  Bool, true, [], ◌∷◌, ◌++◌, ◌≡◌, refl, sym, ◌∙◌, ap, Bytes, text, equal, equal_iff, Bool-cases,
  inl, inr,
}
use msgscript.Base.Strings.{has_prefix, split, Free, split-Free, split-cons, split-Free-cons}
use msgscript.Script.{Script}
use msgscript.Store.Interface.{ScriptStore}
use msgscript.Executor.{executor_by_name, start_all_executors, executor_lua_name}
use msgscript.Executor.Choice.{executor_by_name-start_all_executors}
use msgscript.Server.Reply.{reply_with_error}
use msgscript.Server.Requests.{
  subject_info_named_script, reply_with_named_script_info, with_executor,
}
use msgscript.Server.Dispatch.{Surroundings, handle_info, handle_message}

module _ (env : Surroundings) (store : ScriptStore) where
  handle_message-info_subject :
      (reply body : Bytes) (st : store.State)
      → handle_message env store
          (record { subject = subject_info_named_script; reply = reply; body = body })
          st
        ≡ handle_info env store reply (split b',' body) st
  unfolding handle_message has_prefix text equal
  handle_message-info_subject reply body st = refl

  -- A request for a script whose subject and name hold no comma is answered for what stands
  -- before and behind the one comma. With more commas that answer is sent behind an error, which
  -- makes two replies. With no comma the error is sent and the server then goes down.
  pub handle_message-info :
      (reply subject name more : Bytes) (st : store.State)
      → Free b',' subject
      → Free b',' name
      → let run = λ (body : Bytes).
        handle_message env store
          (record { subject = subject_info_named_script; reply = reply; body = body })
          st in
        let answer = reply_with_named_script_info env.json store subject name reply st in
        let invalid = reply_with_error env.json (text "invalid request") reply in
        (run (subject ++ b',' ∷ name) ≡ answer)
        × (run (subject ++ b',' ∷ (name ++ b',' ∷ more))
            ≡ record answer { published = invalid ++ answer.published })
        × (run subject ≡ record { published = invalid; crashed = true; state = st })
  unfolding handle_info
  handle_message-info reply subject name more st hs hn =
      let run = handle_message-info_subject reply in
      let one = ap (λ ss. handle_info env store reply ss st) (split-Free b',' subject hs) in
      let two =
        ap (λ ss. handle_info env store reply ss st)
          (split-Free-cons b',' subject name hs ∙ ap (◌∷◌ subject) (split-Free b',' name hn)) in
      let (p, ps, e) = split-cons b',' more in
      let three =
        ap (λ ss. handle_info env store reply ss st)
          (split-Free-cons b',' subject (name ++ b',' ∷ more) hs
            ∙ ap (◌∷◌ subject) (split-Free-cons b',' name more hn ∙ ap (◌∷◌ name) e)) in
      (run _ st ∙ two, run _ st ∙ three, run _ st ∙ one)

executor_by_name-lua :
    (connected : Bool)
    → executor_by_name executor_lua_name (start_all_executors connected)
      ≡ executor_by_name [] (start_all_executors connected)
unfolding text equal
executor_by_name-lua connected =
    executor_by_name-start_all_executors connected executor_lua_name
    ∙ sym (executor_by_name-start_all_executors connected [])

-- The executor that is written to a script whose own is empty is the one that its messages were
-- handled by already.
pub executor_by_name-with_executor :
    (connected : Bool) (scr : Script)
    → executor_by_name (with_executor scr).executor (start_all_executors connected)
      ≡ executor_by_name scr.executor (start_all_executors connected)
unfolding with_executor
executor_by_name-with_executor connected scr = elim (Bool-cases (equal scr.executor [])) [
  | inl h ↦ rw h (
      executor_by_name-lua connected
      ∙ ap (λ name. executor_by_name name (start_all_executors connected))
          (sym ((equal_iff scr.executor []).0 h)))
  | inr h ↦ rw h refl
]
