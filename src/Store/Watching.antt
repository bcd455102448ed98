-- ===== src/Store/Watching.antt =====
-- store/etcd.go and store/file.go: `WatchScripts`, as the calls of `onChange` that a sequence of
-- events leads to. Nothing of the program calls it.
use msgscript.Base.{
  Bool, true, false, List, [], ◌∷◌, ◌++◌, Option, none, some, ◌≡◌, refl, ap, ◌∙◌, append_assoc,
  append-nil, Bytes, text, Result, ok, drop, length, if◌then◌else◌,
}
use msgscript.Base.Paths.{join_path}
use msgscript.Base.Strings.{join}
use msgscript.Script.{read_file}
use msgscript.Store.Etcd.{etcd_script_key_prefix, get_key}

-- The arguments of `onChange`.
pub record Change : Type 0 where
  pub subject : Bytes
  pub name : Bytes
  pub script : Option Bytes
  pub deleted : Bool

-- An event of `clientv3.Watch` under a prefix.
pub data EtcdEvent : Type 0 where
  put : Bytes → Bytes → EtcdEvent
  delete : Bytes → EtcdEvent

-- `fmt.Sprintf("%s/%s/", e.prefix, subject)`
unfoldable pub watch_prefix : Bytes → Bytes
watch_prefix subject = etcd_script_key_prefix ++ (b'/' ∷ (subject ++ b'/' ∷ []))

-- `key[len(keyPrefix):]`
unfoldable pub watched_name : Bytes → Bytes → Bytes
watched_name subject key = drop (length (watch_prefix subject)) key

-- `WatchScripts` of the etcd store; the events that arrive have keys under the prefix.
unfoldable pub etcd_watch_scripts : Bytes → List EtcdEvent → List Change
etcd_watch_scripts subject [] = []
etcd_watch_scripts subject (put key value ∷ events) =
    record {
      subject = subject;
      name = watched_name subject key;
      script = some value;
      deleted = false;
    }
    ∷ etcd_watch_scripts subject events
etcd_watch_scripts subject (delete key ∷ events) =
    record { subject = subject; name = watched_name subject key; script = none; deleted = true }
    ∷ etcd_watch_scripts subject events

-- What `select` can meet: an event, with its name, whether it is a write, and what reading the file
-- gives; an error of the watcher; a closed channel, or the end of the context.
pub data FileEvent : Type 0 where
  changed : Bytes → Bool → Result Bytes → FileEvent
  failed : Bytes → FileEvent
  closed : FileEvent

-- The calls, and whether the loop ended in a panic. A file that cannot be read is logged, and then
-- its nil script is read. The path that is read is only used in the log.
unfoldable pub file_watch_scripts : Bytes → List FileEvent → List Change × Bool
file_watch_scripts file_path [] = ([], false)
file_watch_scripts file_path (closed ∷ events) = ([], false)
file_watch_scripts file_path (failed e ∷ events) = file_watch_scripts file_path events
file_watch_scripts file_path (changed name write file ∷ events) =
    let (calls, crashed) = file_watch_scripts file_path events in
    let written : List Change × Bool = elim (read_file (join_path file_path name) file) [
      | ok scr ↦ (
        record {
          subject = scr.subject;
          name = file_path;
          script = some scr.content;
          deleted = false;
        }
            ∷ calls,
        crashed,
      )
      | _ ↦ ([], true)
    ] in
    if write then written else (calls, crashed)

drop-append {ℓ} : {A : Type ℓ} (xs ys : List A) → drop (length xs) (xs ++ ys) ≡ ys
drop-append [] ys = refl
drop-append (x ∷ xs) ys = drop-append xs ys

get_key-watch_prefix : (subject name : Bytes) → get_key subject name ≡ watch_prefix subject ++ name
unfolding get_key watch_prefix join text
get_key-watch_prefix subject name = simp (append-nil, append_assoc)

-- A watch on a subject reports each script that `AddScript` puts under the subject by its name
-- alone, whatever bytes the subject and the name have.
pub watched_name-get_key :
    (subject name : Bytes) → watched_name subject (get_key subject name) ≡ name
unfolding watched_name
watched_name-get_key subject name =
    ap (drop (length (watch_prefix subject))) (get_key-watch_prefix subject name)
    ∙ drop-append (watch_prefix subject) name
