-- ===== src/Store/Etcd/Cluster.antt =====
-- Several nodes that share one etcd: each runs a server with its own `EtcdScriptStore`, and takes
-- and releases locks as its scripts run. The steps of the nodes interleave in any order.
pub mod Invariant
pub mod Exclusion
use msgscript.Base.{
  ℕ, Bool, true, false, ◌&&◌, List, [], ◌∷◌, ◌++◌, Option, none, some, ◌≡◌, ◌≢◌, refl, sym, ap, ◌∙◌,
  arith, Bytes, text, equal, equal_iff, equal_refl, equal_ne, Result, ok, err, if◌then◌else◌, ◌==◌,
  ==_iff, ==_refl, Bool-cases, Option-cases, inl, inr,
}
use mathlib.Core.List.{append_cancel_right}
use msgscript.Base.GoMap
use msgscript.Base.GoMap.{GoMap, lookup-insert, lookup-delete, lookup-nil}
use msgscript.Store.Etcd.Client.{EtcdClient, LockLaws}
use msgscript.Store.Etcd.{EtcdStore, Lock, stop_timer, pending}
use msgscript.Store.Etcd.Mutex.{lock_key_of, take_lock, release_lock, fire}
use msgscript.Store.Etcd.Locks.{Granted, Released, Unchanged, take_lock-cases, release_lock-cases}

-- What a node keeps in memory.
pub record Node (client : EtcdClient) : Type 0 where
  pub mutexes : GoMap (Lock client)
  pub timers : List (ℕ × Bytes)
  pub next_timer : ℕ

pub record Cluster (client : EtcdClient) : Type 0 where
  pub server : client.Server
  pub nodes : ℕ → Node client

module _ {client : EtcdClient} where
  -- The store of node `i`.
  abbrev pub store_at : Cluster client → ℕ → EtcdStore client
  store_at c i = record {
    server = c.server;
    mutexes = (c.nodes i).mutexes;
    timers = (c.nodes i).timers;
    next_timer = (c.nodes i).next_timer;
  }

  -- The same, where the timers are about to be others.
  abbrev pub store_with : Cluster client → ℕ → List (ℕ × Bytes) → EtcdStore client
  store_with c i timers = record (store_at c i) { timers = timers }

  abbrev pub put_back : Cluster client → ℕ → EtcdStore client → Cluster client
  put_back c i st = record {
    server = st.server;
    nodes = λ j.
        if j == i
        then record { mutexes = st.mutexes; timers = st.timers; next_timer = st.next_timer }
        else c.nodes j;
  }

  -- The lock that node `i` has under a path.
  abbrev pub lock_at : Cluster client → ℕ → Bytes → Option (Lock client)
  lock_at c i path = GoMap.lookup path (c.nodes i).mutexes

module _ (client : EtcdClient) (laws : LockLaws client) where
  open laws use {holder}

  -- A release of this path by node `i`, which has these timers, that fails has not freed the key.
  abbrev pub Settled : Cluster client → ℕ → List (ℕ × Bytes) → Bytes → Type 0
  Settled c i timers path =
      let p = release_lock client path (store_with c i timers) in
      p.0 ≢ ok tt → (k : Bytes) → holder p.1.server k ≡ holder c.server k

  -- A node takes or releases the lock of a path, one of its timers fires, or etcd serves a request
  -- that is about no lock. No lease runs out, and an unlock that fails has not been applied.
  pub data Step (c : Cluster client) : Cluster client → Type 0 where
    takes : (i : ℕ) (path : Bytes) → Step c (put_back c i (take_lock client path (store_at c i)).1)
    releases :
        (i : ℕ) (path : Bytes)
        → Settled c i (c.nodes i).timers path
        → Step c (put_back c i (release_lock client path (store_at c i)).1)
    fires :
        (i id : ℕ)
        → ((path : Bytes)
            → pending id (c.nodes i).timers ≡ some path
            → Settled c i (stop_timer id (c.nodes i).timers) path)
        → Step c (put_back c i (fire client id (store_at c i)))
    serves :
        (server : client.Server)
        → ((k : Bytes) → holder server k ≡ holder c.server k)
        → Step c (record c { server = server })

  pub data Reach (c : Cluster client) : Cluster client → Type 0 where
    here : Reach c c
    next : {d e : Cluster client} → Reach c d → Step d e → Reach c e
