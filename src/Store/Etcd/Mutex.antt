-- ===== src/Store/Etcd/Mutex.antt =====
-- `acquireLock`, `TakeLock`, `ReleaseLock` and the timer of a lock, of store/etcd.go.
use msgscript.Base.{ℕ, ◌+◌, Bool, true, ◌∷◌, ◌++◌, none, some, Bytes, text, Result, ok, err, panic}
use msgscript.Base.GoMap
use msgscript.Store.Etcd.Client.{EtcdClient, LockReply}
use msgscript.Store.Etcd.{EtcdStore, Lock, stop_timer, pending}

-- `path + "_lock"`
abbrev pub lock_key_of : Bytes → Bytes
lock_key_of path = path ++ text "_lock"

-- What `acquireLock` returns: the mutex, `concurrency.ErrLocked`, or another error.
pub data Acquired (Session : Type 0) : Type 0 where
  mutex : Session → Acquired Session
  err_locked : Acquired Session
  not_acquired : Bytes → Acquired Session
  acquire_panic : Acquired Session

module _ (client : EtcdClient) where
  unfoldable pub try_session :
      Bytes → Result client.Session × client.Server → Acquired client.Session × client.Server
  try_session lock_key (ok session, server) =
      let (reply, server') = client.try_lock session lock_key server in
      (
        elim reply [
          | LockReply.acquired ↦ mutex session
          | LockReply.held ↦ err_locked
          | LockReply.canceled ↦ err_locked
          | LockReply.failed e ↦ not_acquired e
        ],
        server',
      )
  try_session lock_key (err e, server) =
      (not_acquired (text "failed to create session: " ++ e), server)
  try_session lock_key (panic, server) = (acquire_panic, server)

  unfoldable pub acquire_lock : Bytes → client.Server → Acquired client.Session × client.Server
  unfolding try_session
  acquire_lock lock_key server = try_session lock_key (client.new_session server)

  -- The part of `TakeLock` behind `acquireLock`. The timer is given `lockKey`.
  unfoldable pub store_lock :
      Bytes
      → Acquired client.Session × client.Server
      → EtcdStore client
      → Result Bool × EtcdStore client
  store_lock path (mutex session, server) st = (
    ok true,
    record {
      server = server;
      mutexes =
          GoMap.insert path
            (record { session = session; lock_key = lock_key_of path; timer = st.next_timer })
            st.mutexes;
      timers = (st.next_timer, lock_key_of path) ∷ st.timers;
      next_timer = st.next_timer + 1;
    },
  )
  store_lock path (err_locked, server) st =
      (err (text "already locked"), record st { server = server })
  store_lock path (not_acquired e, server) st = (
    err (text "failed to get lock on key " ++ (lock_key_of path ++ (text ": " ++ e))),
    record st { server = server },
  )
  store_lock path (acquire_panic, server) st = (panic, record st { server = server })

  -- `TakeLock`
  unfoldable pub take_lock : Bytes → EtcdStore client → Result Bool × EtcdStore client
  unfolding store_lock
  take_lock path st = store_lock path (acquire_lock (lock_key_of path) st.server) st

  unfoldable pub unlocked :
      Bytes
      → Lock client
      → Result (Unit {0}) × client.Server
      → EtcdStore client
      → Result (Unit {0}) × EtcdStore client
  unlocked path l (ok _, server) st = (
    ok tt,
    record st {
      server = server;
      timers = stop_timer l.timer st.timers;
      mutexes = GoMap.delete path st.mutexes;
    },
  )
  unlocked path l (err e, server) st =
      (err (text "etcdStore: failed to release lock: " ++ e), record st { server = server })
  unlocked path l (panic, server) st = (panic, record st { server = server })

  -- `ReleaseLock`
  unfoldable pub release_lock : Bytes → EtcdStore client → Result (Unit {0}) × EtcdStore client
  unfolding unlocked
  release_lock path st = elim (GoMap.lookup path st.mutexes) [
    | none ↦ (ok tt, st)
    | some l ↦ unlocked path l (client.unlock l.session l.lock_key st.server) st
  ]

  -- The timer with this number fires, if it is still pending. What `ReleaseLock` returns is dropped.
  unfoldable pub fire : ℕ → EtcdStore client → EtcdStore client
  fire id st = elim (pending id st.timers) [
    | none ↦ st
    | some path ↦ (release_lock path (record st { timers = stop_timer id st.timers })).1
  ]
