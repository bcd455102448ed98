-- ===== src/Server/Http/PagesEndToEnd.antt =====
-- The pages about scripts, from the request to the store and back.
use msgscript.Base.{
  [], ◌∷◌, ◌++◌, Option, some, ◌≡◌, refl, ◌∙◌, ap, Bytes, text, equal, equal_ne, Result, ok, err,
  if◌then◌else◌, append-nil, Bool-cases, inl, inr,
}
use msgscript.Base.GoMap
use msgscript.Base.GoMap.{GoMap}
use msgscript.Base.Strings.{join, Free, has_prefix}
use msgscript.Script.{Script}
use msgscript.Store.Interface.{ScriptStore}
use msgscript.Server.Reply.{new_reply, reply_message, reply_with_error}
use msgscript.Server.Requests.{
  subject_list_scripts, subject_info_named_script, reply_with_subject_list, info_key, with_executor,
  info_reply, reply_with_named_script_info,
}
use msgscript.Server.Dispatch.{Surroundings, handle_message}
use msgscript.Server.Dispatch.Info.{handle_message-info}
use msgscript.Server.Http.Response.{new_writer, http_panic}
use msgscript.Server.Http.Pages.{
  Pages, Page, info_page, list_scripts, page_written, info_for_named_script,
}
use msgscript.Server.Http.Connection.{Delivers, IsReplyJson}

-- The page of a script, as it stands in the reply.
info_of : Bytes → Bytes → Script → Page
info_of subject name scr =
    info_page subject name scr.html (join (text ", ") scr.lib_keys) scr.executor scr.content

info_of-with_executor :
    (subject name : Bytes) (scr : Script)
    → info_of subject name (with_executor scr)
      ≡ info_page subject name scr.html
          (join (text ", ") scr.lib_keys)
          (if equal scr.executor [] then text "lua" else scr.executor)
          scr.content
unfolding info_of with_executor
info_of-with_executor subject name scr = elim (Bool-cases (equal scr.executor [])) [
  | inl h ↦ rw h refl
  | inr h ↦ rw h refl
]

module _ (env : Surroundings) (store : ScriptStore) (st : store.State)
    (request : Bytes → Bytes → Result Bytes) (template : Page → Bytes × Option Bytes)
    (connection : Delivers env store st request) where
  abbrev pub pages : Pages
  pages = record { json = env.json; request = request; template = template }

  -- Where NATS brings the request to the handler of messages and back, and the reply decodes from
  -- its JSON, the page of the scripts panics if the store cannot list its subjects.
  pub list_scripts-error :
      (e response : Bytes)
      → store.list_subjects st ≡ err e
      → IsReplyJson env.json (record new_reply { error = e }) response
      → list_scripts pages ≡ http_panic new_writer
  unfolding list_scripts handle_message reply_with_subject_list reply_with_error has_prefix text
      equal
  list_scripts-error e response failed encoded =
      let came =
        connection.delivers subject_list_scripts [] response [] (rw (failed, encoded.0) refl) in
      rw (came, encoded.1) refl

  named_info :
      (subject name response : Bytes) (scripts : GoMap Script) (scr : Script)
      → store.get_scripts subject st ≡ ok scripts
      → GoMap.lookup (info_key store subject name) scripts ≡ some scr
      → IsReplyJson env.json (info_reply (with_executor scr)) response
      → (reply_with_named_script_info env.json store subject name connection.inbox st).published
        ≡ (connection.inbox, response) ∷ []
  unfolding reply_with_named_script_info reply_message
  named_info subject name response scripts scr got found encoded =
      rw (got, found, equal_ne connection.inbox [] connection.inbox_ne, encoded.0) refl

  info_page-info_reply :
      (subject name response : Bytes) (scr : Script)
      → request subject_info_named_script (subject ++ b',' ∷ name) ≡ ok response
      → env.json.unmarshal_reply response ≡ ok (info_reply scr)
      → info_for_named_script pages subject name
        ≡ page_written (template (info_of subject name scr))
  unfolding info_of info_for_named_script info_reply text equal
  info_page-info_reply subject name response scr came back = rw (append-nil, came, back) refl

  -- Where NATS brings the request to the handler of messages and back, and the reply decodes from
  -- its JSON, the page of a script that the store has, under a subject and a name without commas,
  -- shows the script's content, its libraries, its kind and its executor, which is `lua` where
  -- the script names none.
  pub info_for_named_script-found :
      (subject name response : Bytes) (scripts : GoMap Script) (scr : Script)
      → Free b',' subject
      → Free b',' name
      → store.get_scripts subject st ≡ ok scripts
      → GoMap.lookup (info_key store subject name) scripts ≡ some scr
      → IsReplyJson env.json (info_reply (with_executor scr)) response
      → info_for_named_script pages subject name
        ≡ page_written (
            template (
              info_page subject name scr.html
                (join (text ", ") scr.lib_keys)
                (if equal scr.executor [] then text "lua" else scr.executor)
                scr.content))
  info_for_named_script-found subject name response scripts scr hs hn got found encoded =
      let answer = named_info subject name response scripts scr got found encoded in
      let one_comma = (handle_message-info env store connection.inbox subject name [] st hs hn).0 in
      let came =
        connection.delivers subject_info_named_script (subject ++ b',' ∷ name) response []
          (ap (λ o. o.published) one_comma ∙ answer) in
      info_page-info_reply subject name response (with_executor scr) came encoded.1
      ∙ ap (λ page. page_written (template page)) (info_of-with_executor subject name scr)
