-- ===== src/Store/Etcd/Client.antt =====
-- What store/etcd.go takes from others: the etcd client (go.etcd.io/etcd/client/v3 and its package
-- `concurrency`) and the JSON coding of scripts. Each is a record of operations, and the behaviour
-- that their documentation promises is a record of named hypotheses.
use msgscript.Base.{
  ◌⊎◌, false, All, [], ◌∷◌, Option, none, some, ◌≡◌, Bytes, equal, Result, ok, if◌then◌else◌,
}
use msgscript.Base.GoMap
use msgscript.Base.GoMap.{GoMap, Distinct}
use msgscript.Base.Strings.{has_prefix}
use msgscript.Base.Utf8.{IsUtf8}
use msgscript.Script.{Script}

-- What `Mutex.TryLock` returns: nil, `concurrency.ErrLocked`, `context.Canceled`, another error.
pub data LockReply : Type 0 where
  acquired held canceled : LockReply
  failed : Bytes → LockReply

pub record EtcdClient : Type 1 where
  pub Server : Type 0
  pub put : Bytes → Bytes → Server → Result (Unit {0}) × Server
  pub get : Bytes → Server → Result (GoMap Bytes)
  pub get_prefix : Bytes → Server → Result (GoMap Bytes)
  pub delete : Bytes → Server → Result (Unit {0}) × Server
  pub Session : Type 0
  pub new_session : Server → Result Session × Server
  pub try_lock : Session → Bytes → Server → LockReply × Server
  pub unlock : Session → Bytes → Server → Result (Unit {0}) × Server

-- Keys and values. `contents` is what the cluster holds; a read is of the whole contents.
pub record KeyLaws (client : EtcdClient) : Type 0 where
  pub contents : client.Server → Bytes → Option Bytes
  pub put_contents :
      (k v j : Bytes) (s : client.Server)
      → (client.put k v s).0 ≡ ok tt
      → contents (client.put k v s).1 j ≡ (if equal k j then some v else contents s j)
  pub delete_contents :
      (k j : Bytes) (s : client.Server)
      → (client.delete k s).0 ≡ ok tt
      → contents (client.delete k s).1 j ≡ (if equal k j then none else contents s j)
  pub get_contents :
      (k : Bytes) (s : client.Server) (kvs : GoMap Bytes)
      → client.get k s ≡ ok kvs
      → kvs ≡ elim (contents s k) [ none ↦ [] | some v ↦ (k, v) ∷ [] ]
  pub prefix_contents :
      (p j : Bytes) (s : client.Server) (kvs : GoMap Bytes)
      → client.get_prefix p s ≡ ok kvs
      → GoMap.lookup j kvs ≡ (if has_prefix j p then contents s j else none)
  pub prefix_distinct :
      (p : Bytes) (s : client.Server) (kvs : GoMap Bytes)
      → client.get_prefix p s ≡ ok kvs
      → Distinct kvs

-- The mutexes. `holder` is the session that a key is locked by. No call lets a lease run out.
pub record LockLaws (client : EtcdClient) : Type 0 where
  pub holder : client.Server → Bytes → Option client.Session
  pub session_holder :
      (s : client.Server) (k : Bytes) → holder (client.new_session s).1 k ≡ holder s k
  -- A new session has a lease of its own, which no key has.
  pub session_fresh :
      (o : client.Session) (s : client.Server) (k : Bytes)
      → (client.new_session s).0 ≡ ok o
      → (holder (client.new_session s).1 k ≡ some o → ⊥)
  pub lock_free :
      (o : client.Session) (k : Bytes) (s : client.Server)
      → (client.try_lock o k s).0 ≡ LockReply.acquired
      → (holder s k ≡ none) ⊎ (holder s k ≡ some o)
  pub lock_holder :
      (o : client.Session) (k j : Bytes) (s : client.Server)
      → (client.try_lock o k s).0 ≡ LockReply.acquired
      → holder (client.try_lock o k s).1 j ≡ (if equal k j then some o else holder s j)
  -- A `TryLock` that does not return nil may have been applied all the same, to a key that was free.
  pub refused_other :
      (o : client.Session) (k j : Bytes) (s : client.Server)
      → equal k j ≡ false
      → holder (client.try_lock o k s).1 j ≡ holder s j
  pub refused_held :
      (o : client.Session) (k : Bytes) (s : client.Server)
      → ((client.try_lock o k s).0 ≡ LockReply.acquired → ⊥)
      → (holder s k ≡ none → ⊥)
      → holder (client.try_lock o k s).1 k ≡ holder s k
  -- `Unlock` deletes the key of its own session, which may be gone; one that fails may have been
  -- applied all the same.
  pub unlock_other :
      (o : client.Session) (k j : Bytes) (s : client.Server)
      → equal k j ≡ false
      → holder (client.unlock o k s).1 j ≡ holder s j
  pub unlock_lost :
      (o : client.Session) (k : Bytes) (s : client.Server)
      → (holder s k ≡ some o → ⊥)
      → holder (client.unlock o k s).1 k ≡ holder s k
  pub unlock_holder :
      (o : client.Session) (k : Bytes) (s : client.Server)
      → (client.unlock o k s).0 ≡ ok tt
      → holder s k ≡ some o
      → holder (client.unlock o k s).1 k ≡ none
  pub unlock_failed :
      (o : client.Session) (k : Bytes) (s : client.Server)
      → ((client.unlock o k s).0 ≡ ok tt → ⊥)
      → (holder (client.unlock o k s).1 k ≡ holder s k) ⊎ (holder (client.unlock o k s).1 k ≡ none)

-- `json.Marshal` and `json.Unmarshal` at the type `Script`.
pub record ScriptCodec : Type 0 where
  pub marshal : Script → Result Bytes
  pub unmarshal : Bytes → Result Script

-- A script whose strings are UTF-8: of any other text encoding/json keeps U+FFFD in place of the bytes
-- that are not. The content is a byte slice, which is coded as it is.
abbrev pub IsCoded : Script → Type 0
IsCoded s = IsUtf8 s.subject × IsUtf8 s.name × IsUtf8 s.executor × All IsUtf8 s.lib_keys

pub record CodecLaws (codec : ScriptCodec) : Type 0 where
  pub unmarshal-marshal :
      (s : Script) (b : Bytes) → IsCoded s → codec.marshal s ≡ ok b → codec.unmarshal b ≡ ok s
