-- ===== src/Samples/Etcd.antt =====
-- An etcd server that holds its keys and its locks in two maps and never fails. A new session gets
-- a number above those that hold a lock.
use msgscript.Base.{
  ℕ, ◌+◌, ◌<◌, Bool, true, false, ◌&&◌, not, List, [], ◌∷◌, Option, none, some, ◌≡◌, refl, arith,
  Bytes, text, equal, equal_iff, Result, ok, err, if◌then◌else◌, ap, sym, ◌==◌, ==_iff, Bool-cases,
  inl, inr,
}
use msgscript.Base.GoMap
use msgscript.Base.GoMap.{
  GoMap, Distinct, lookup-insert, lookup-delete, lookup-nil, lookup-insert_self, insert-Distinct,
  lookup-delete_self,
}
use msgscript.Base.Strings.{has_prefix}
use msgscript.Script.{Script, new_script}
use msgscript.Store.Etcd.Client.{EtcdClient, LockReply, KeyLaws, LockLaws, ScriptCodec, CodecLaws}
use msgscript.Store.Etcd.{EtcdStore}
use msgscript.Store.ByName.{Outside}

pub record Server : Type 0 where
  pub contents : GoMap Bytes
  pub locks : GoMap ℕ
  pub sessions : ℕ

-- The first value of each key that has the prefix.
unfoldable pub with_prefix : Bytes → GoMap Bytes → GoMap Bytes
with_prefix p [] = []
with_prefix p ((k, v) ∷ m) =
    let rest = with_prefix p m in if has_prefix k p then GoMap.insert k v rest else rest

-- A number above each session that holds a lock.
abbrev pub above : GoMap ℕ → ℕ
above [] = 0
above ((k, o) ∷ m) = o + 1 + above m

abbrev pub try_held : ℕ → Bytes → Server → Option ℕ → LockReply × Server
try_held o k s none = (LockReply.acquired, record s { locks = GoMap.insert k o s.locks })
try_held o k s (some _) = (LockReply.held, s)

abbrev pub freed_by : ℕ → Bytes → Server → Option ℕ → Server
freed_by o k s none = s
freed_by o k s (some p) = if p == o then record s { locks = GoMap.delete k s.locks } else s

abbrev pub sample_client : EtcdClient
sample_client = record {
  Server = Server;
  put = λ k v s. (ok tt, record s { contents = GoMap.insert k v s.contents });
  get = λ k s. ok (elim (GoMap.lookup k s.contents) [ none ↦ [] | some v ↦ (k, v) ∷ [] ]);
  get_prefix = λ p s. ok (with_prefix p s.contents);
  delete = λ k s. (ok tt, record s { contents = GoMap.delete k s.contents });
  Session = ℕ;
  new_session = λ s. (ok (s.sessions + above s.locks), record s { sessions = s.sessions + 1 });
  try_lock = λ o k s. try_held o k s (GoMap.lookup k s.locks);
  unlock = λ o k s. (ok tt, freed_by o k s (GoMap.lookup k s.locks));
}

lookup-with_prefix :
    (p j : Bytes) (m : GoMap Bytes)
    → GoMap.lookup j (with_prefix p m) ≡ (if has_prefix j p then GoMap.lookup j m else none)
unfolding with_prefix GoMap.lookup
lookup-with_prefix p j [] = ground arith
lookup-with_prefix p j ((k, v) ∷ m) =
    ground (arith, lookup-insert k j v (with_prefix p m), lookup-with_prefix p j m, equal_iff k j)

with_prefix-Distinct : (p : Bytes) (m : GoMap Bytes) → Distinct (with_prefix p m)
unfolding with_prefix
with_prefix-Distinct p [] = tt
with_prefix-Distinct p ((k, v) ∷ m) =
    ground (arith, insert-Distinct k v (with_prefix p m), with_prefix-Distinct p m)

pub sample_keys : KeyLaws sample_client
sample_keys = record {
  contents = λ s j. GoMap.lookup j s.contents;
  put_contents = λ k v j s _. lookup-insert k j v s.contents;
  delete_contents = λ k j s _. lookup-delete k j s.contents;
  get_contents = λ k s kvs h. ground arith;
  prefix_contents = λ p j s kvs h. ground (arith, lookup-with_prefix p j s.contents);
  prefix_distinct = λ p s kvs h. ground (arith, with_prefix-Distinct p s.contents);
}

lookup-above : (k : Bytes) (o : ℕ) (m : GoMap ℕ) → GoMap.lookup k m ≡ some o → o < above m
unfolding GoMap.lookup
lookup-above k o [] h = ground arith
lookup-above k o ((j, p) ∷ m) h = ground (arith, lookup-above k o m)

freed_by-other :
    (o : ℕ) (k j : Bytes) (s : Server) (held : Option ℕ)
    → equal k j ≡ false
    → GoMap.lookup j (freed_by o k s held).locks ≡ GoMap.lookup j s.locks
freed_by-other o k j s none ne = refl
freed_by-other o k j s (some p) ne = ground (arith, lookup-delete k j s.locks)

freed_by-lost :
    (o : ℕ) (k : Bytes) (s : Server) (held : Option ℕ)
    → (held ≡ some o → ⊥)
    → GoMap.lookup k (freed_by o k s held).locks ≡ GoMap.lookup k s.locks
freed_by-lost o k s none lost = refl
freed_by-lost o k s (some p) lost = elim (Bool-cases (p == o)) [
  | inl e ↦ absurd (lost (ap some ((==_iff p o).0 e)))
  | inr e ↦ rw e refl
]

freed_by-own :
    (o : ℕ) (k : Bytes) (s : Server) (held : Option ℕ)
    → held ≡ some o
    → GoMap.lookup k (freed_by o k s held).locks ≡ none
freed_by-own o k s none h = cc
freed_by-own o k s (some p) h = ground (arith, ==_iff p o, lookup-delete_self k s.locks)

pub sample_locks : LockLaws sample_client
sample_locks = record {
  holder = λ s k. GoMap.lookup k s.locks;
  session_holder = λ s k. refl;
  session_fresh = λ o s k e h. ground (arith, lookup-above k o s.locks h);
  lock_free = λ o k s h. inl (ground arith);
  lock_holder = λ o k j s h. ground (arith, lookup-insert k j o s.locks);
  refused_other = λ o k j s ne. ground (arith, lookup-insert k j o s.locks);
  refused_held = λ o k s h held. ground arith;
  unlock_other = λ o k j s ne. freed_by-other o k j s (GoMap.lookup k s.locks) ne;
  unlock_lost = λ o k s. freed_by-lost o k s (GoMap.lookup k s.locks);
  unlock_holder = λ o k s _. freed_by-own o k s (GoMap.lookup k s.locks);
  unlock_failed = λ o k s h. absurd (h refl);
}

pub holder_lookup : (s : Server) (k : Bytes) → sample_locks.holder s k ≡ GoMap.lookup k s.locks
unfolding sample_locks
holder_lookup s k = refl

-- Only the content of a script is coded, and a script with anything else is refused.
abbrev pub is_nil : List Bytes → Bool
is_nil [] = true
is_nil (x ∷ xs) = false

abbrev pub is_plain : Script → Bool
is_plain s =
    is_nil s.lib_keys
    && (not s.html && (equal s.executor [] && (equal s.name [] && equal s.subject [])))

abbrev pub sample_codec : ScriptCodec
sample_codec = record {
  marshal = λ s. if is_plain s then ok s.content else err (text "too rich");
  unmarshal = λ b. ok (record new_script { content = b });
}

is_nil_iff : (ls : List Bytes) → is_nil ls ≡ true → ls ≡ []
is_nil_iff [] h = refl
is_nil_iff (l ∷ ls) h = cc

is_plain-fields :
    (s : Script) (b : Bytes)
    → (if is_plain s then ok s.content else err (text "too rich")) ≡ ok b
    → (s.content ≡ b)
      × (s.lib_keys ≡ [])
      × (s.html ≡ false)
      × (s.executor ≡ [])
      × (s.name ≡ [])
      × (s.subject ≡ [])
is_plain-fields s b h = ground (
  arith,
  is_nil_iff s.lib_keys,
  equal_iff s.executor [],
  equal_iff s.name [],
  equal_iff s.subject [],
)

pub sample_codec-CodecLaws : CodecLaws sample_codec
sample_codec-CodecLaws = record {
  unmarshal-marshal = λ s b coded h.
      let (content, libs, html, executor, name, subject) = is_plain-fields s b h in
      ap {B = Result Script} ok (λ i. record {
        content = sym content i;
        executor = sym executor i;
        html = sym html i;
        lib_keys = sym libs i;
        name = sym name i;
        subject = sym subject i;
      });
}

abbrev pub empty_store : EtcdStore sample_client
empty_store = record {
  server = record { contents = []; locks = []; sessions = 0 };
  mutexes = [];
  timers = [];
  next_timer = 0;
}

-- No variable is set, and each folder is empty.
abbrev pub sample_outside : Outside sample_client
sample_outside = record {
  variable = [];
  setenv_error = none;
  connect = λ endpoints. ok empty_store.server;
  folders = record { absolute = λ dir. ok dir; read_dir = λ dir. ok [] };
}
