-- ===== src/Server/Requests.antt =====
-- cmd/server/messages.go: the answers to the requests about the scripts themselves.
pub mod Names
pub mod Subjects
use msgscript.Base.{
  Bool, true, false, List, [], ◌∷◌, ◌++◌, Option, none, some, Bytes, text, equal, Result, ok, err,
  panic, if◌then◌else◌,
}
use msgscript.Base.GoMap
use msgscript.Base.GoMap.{GoMap}
use msgscript.Base.Strings.{join, remove_all}
use msgscript.Base.Int.{pos}
use msgscript.Script.{Script}
use msgscript.Store.Interface.{ScriptStore}
use msgscript.Store.Etcd.{etcd_script_key_prefix}
use msgscript.Executor.{ScriptResult, executor_lua_name}
use msgscript.Server.Reply.{Reply, Json, Publish, reply_message, reply_with_error}

abbrev pub subject_list_scripts : Bytes
subject_list_scripts = text "__listScripts"

abbrev pub subject_list_names_for_script : Bytes
subject_list_names_for_script = text "__listNamesForScript"

abbrev pub subject_info_named_script : Bytes
subject_info_named_script = text "__infoNamedScript"

-- What a handler does: the calls of `nc.Publish` in their order, whether it then panics, and the
-- store that it leaves.
pub record Outcome (State : Type 0) : Type 0 where
  pub published : List Publish
  pub crashed : Bool
  pub state : State

-- The reply that carries a list of names.
abbrev pub list_reply : Bytes → Reply
list_reply j = record {
  results = record { code = pos 200; error = []; headers = []; is_html = true; payload = j } ∷ [];
  html = true;
  error = [];
}

-- The reply that carries a script.
unfoldable pub info_reply : Script → Reply
info_reply scr = record {
  results =
      record {
        code = pos 200;
        error = [];
        headers =
            (text "libraries", join (text ", ") scr.lib_keys)
            ∷ (text "executor", scr.executor)
            ∷ [];
        is_html = scr.html;
        payload = scr.content;
      }
      ∷ [];
  html = scr.html;
  error = [];
}

-- `if script.Executor == "" { script.Executor = executor.EXECUTOR_LUA_NAME }`
unfoldable pub with_executor : Script → Script
with_executor scr =
    if equal scr.executor [] then record scr { executor = executor_lua_name } else scr

module _ (store : ScriptStore) where
  -- The name that is listed for a key of the map that `GetScripts` returned.
  unfoldable pub listed_name : Bytes → Bytes → Bytes
  listed_name subject name =
      if equal store.backend_name (text "etcd")
      then remove_all (join (text "/") (etcd_script_key_prefix ∷ subject ∷ [])) name
      else name

  -- The loop over the scripts, in the order of the map.
  unfoldable pub names_of_scripts : Bytes → GoMap Script → List Bytes
  unfolding listed_name
  names_of_scripts subject [] = []
  names_of_scripts subject ((name, _) ∷ scripts) =
      listed_name subject name ∷ names_of_scripts subject scripts

  -- The key under which a script is looked up.
  unfoldable pub info_key : Bytes → Bytes → Bytes
  info_key subject name =
      if equal store.backend_name (text "etcd")
      then join (text "/") (etcd_script_key_prefix ∷ subject ∷ name ∷ [])
      else name

module _ (json : Json) where
  encoded_list : Bytes → Bytes → Result Bytes → List Publish
  encoded_list what reply_subject (ok j) = reply_message json reply_subject (list_reply j)
  encoded_list what reply_subject (err e) =
      reply_with_error json (text "failed to encode " ++ (what ++ (text " list: " ++ e)))
        reply_subject
  encoded_list what reply_subject panic = []

  module _ (store : ScriptStore) where
    -- `if err != nil { replyWithError(…); return }` behind a call of the store.
    or_error :
        {A : Type 0}
        → Bytes
        → store.State
        → Result A
        → (A → Outcome store.State)
        → Outcome store.State
    or_error reply_subject st (ok a) answer = answer a
    or_error reply_subject st (err e) answer = record {
      published = reply_with_error json e reply_subject;
      crashed = false;
      state = st;
    }
    or_error reply_subject st panic answer = record { published = []; crashed = true; state = st }

    -- `replyWithSubjectList`
    unfoldable pub reply_with_subject_list : Bytes → store.State → Outcome store.State
    unfolding encoded_list or_error
    reply_with_subject_list reply_subject st =
        or_error reply_subject st (store.list_subjects st) (λ subjects. record {
          published = encoded_list (text "subject") reply_subject (json.marshal_strings subjects);
          crashed = false;
          state = st;
        })

    -- `replyWithNamesForSubject`
    unfoldable pub reply_with_names_for_subject : Bytes → Bytes → store.State → Outcome store.State
    unfolding encoded_list names_of_scripts or_error
    reply_with_names_for_subject subject reply_subject st =
        or_error reply_subject st (store.get_scripts subject st) (λ scripts. record {
          published =
              encoded_list (text "name") reply_subject
                (json.marshal_strings (names_of_scripts store subject scripts));
          crashed = false;
          state = st;
        })

    -- Behind the lookup. The default executor is written to the script that the store returned.
    found_script : Bytes → Bytes → Bytes → Option Script → store.State → Outcome store.State
    found_script subject key reply_subject none st = record {
      published =
          reply_with_error json
            (text "no script found for subject " ++ (subject ++ (text " with name " ++ key)))
            reply_subject;
      crashed = false;
      state = st;
    }
    found_script subject key reply_subject (some scr) st = record {
      published = reply_message json reply_subject (info_reply (with_executor scr));
      crashed = false;
      state = store.write_through subject key with_executor st;
    }

    -- `replyWithNamedScriptInfo`
    unfoldable pub reply_with_named_script_info :
        Bytes → Bytes → Bytes → store.State → Outcome store.State
    unfolding found_script GoMap.lookup info_key or_error
    reply_with_named_script_info subject name reply_subject st =
        let key = info_key store subject name in
        or_error reply_subject st (store.get_scripts subject st)
          (λ scripts. found_script subject key reply_subject (GoMap.lookup key scripts) st)
