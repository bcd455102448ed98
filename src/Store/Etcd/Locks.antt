-- ===== src/Store/Etcd/Locks.antt =====
-- What `TakeLock` and `ReleaseLock` of store/etcd.go do to the locks of etcd and of the node.
use msgscript.Base.{
  true, false, ◌∷◌, none, some, ◌≡◌, ◌≢◌, refl, Bytes, equal, Result, ok, err, panic, if◌then◌else◌,
  ◌⊎◌, inl, inr, Option-cases,
}
use msgscript.Base.GoMap
use msgscript.Base.GoMap.{lookup-insert, lookup-delete}
use msgscript.Store.Etcd.Client.{EtcdClient, LockReply, LockLaws}
use msgscript.Store.Etcd.{EtcdStore, Lock, stop_timer}
use msgscript.Store.Etcd.Mutex.{
  Acquired, mutex, err_locked, not_acquired, acquire_panic, lock_key_of, try_session, acquire_lock,
  store_lock, take_lock, release_lock, unlocked,
}

module _ (client : EtcdClient) (laws : LockLaws client) where
  open laws use {holder}

  -- Nothing is locked or unlocked, and the node's mutexes are as they were.
  pub record Unchanged (st st' : EtcdStore client) : Type 0 where
    pub same_mutexes : st'.mutexes ≡ st.mutexes
    pub same_holder : (k : Bytes) → holder st'.server k ≡ holder st.server k

  -- Every other key is held as before, and so is this key if it was held.
  abbrev pub Spared : Bytes → client.Server → client.Server → Type 0
  Spared key server server' =
      ((k : Bytes) → equal key k ≡ false → holder server' k ≡ holder server k)
      × (holder server key ≢ none → holder server' key ≡ holder server key)

  -- No mutex and no timer has changed, and no key but a free one of the path.
  pub record Refused (path : Bytes) (st st' : EtcdStore client) : Type 0 where
    pub kept_mutexes : st'.mutexes ≡ st.mutexes
    pub kept_timers : st'.timers ≡ st.timers
    pub spared : Spared (lock_key_of path) st.server st'.server

  -- The key was free and is held by a new session, whose mutex the node keeps under the path.
  pub record Granted (path : Bytes) (st st' : EtcdStore client) : Type 0 where
    pub session : client.Session
    pub was_free : holder st.server (lock_key_of path) ≡ none
    pub now_held :
        (k : Bytes)
        → holder st'.server k
          ≡ (if equal (lock_key_of path) k then some session else holder st.server k)
    pub stored :
        st'.mutexes
        ≡ GoMap.insert path
            (record { session = session; lock_key = lock_key_of path; timer = st.next_timer })
            st.mutexes
    pub armed : st'.timers ≡ (st.next_timer, lock_key_of path) ∷ st.timers

  -- What `acquireLock` does to the holders.
  abbrev AcquiredAt : Bytes → client.Server → Acquired client.Session × client.Server → Type 0
  AcquiredAt key server (mutex session, server') =
      (holder server key ≡ none)
      × ((k : Bytes) → holder server' k ≡ (if equal key k then some session else holder server k))
  AcquiredAt key server (err_locked, server') = Spared key server server'
  AcquiredAt key server (not_acquired e, server') = Spared key server server'
  AcquiredAt key server (acquire_panic, server') = Spared key server server'

  abbrev ReplyAt : client.Session → Bytes → client.Server → LockReply × client.Server → Type 0
  ReplyAt o key server (reply, server') =
      (reply ≡ LockReply.acquired
        → (holder server key ≡ none)
          × ((k : Bytes) → holder server' k ≡ (if equal key k then some o else holder server k)))
      × ((reply ≡ LockReply.acquired → ⊥) → Spared key server server')

  try_lock-ReplyAt :
      (o : client.Session) (key : Bytes) (server : client.Server)
      → (holder server key ≡ some o → ⊥)
      → ReplyAt o key server (client.try_lock o key server)
  try_lock-ReplyAt o key server fresh = (
    λ h. (
      elim (laws.lock_free o key server h) [ inl free ↦ free | inr own ↦ absurd (fresh own) ],
      λ k. laws.lock_holder o key k server h,
    ),
    λ h. ((λ k other. laws.refused_other o key k server other), laws.refused_held o key server h),
  )

  reply-AcquiredAt :
      (o : client.Session) (key : Bytes) (server server' : client.Server) (reply : LockReply)
      → ReplyAt o key server (reply, server')
      → AcquiredAt key server (
        elim reply [
          | LockReply.acquired ↦ mutex o
          | LockReply.held ↦ err_locked
          | LockReply.canceled ↦ err_locked
          | LockReply.failed e ↦ not_acquired e
        ],
        server',
      )
  reply-AcquiredAt o key server server' LockReply.acquired h = h.0 refl
  reply-AcquiredAt o key server server' LockReply.held h = h.1 (λ e. cc)
  reply-AcquiredAt o key server server' LockReply.canceled h = h.1 (λ e. cc)
  reply-AcquiredAt o key server server' (LockReply.failed f) h = h.1 (λ e. cc)

  Spared-earlier :
      (key : Bytes) (server before server' : client.Server)
      → ((k : Bytes) → holder server k ≡ holder before k)
      → Spared key server server'
      → Spared key before server'
  Spared-earlier key server before server' same (other, held) =
      (λ k ne. rw (← same k) (other k ne), λ h. rw (← same key) (held (rw same h)))

  -- The same, from an earlier state with the same holders.
  AcquiredAt-earlier :
      (key : Bytes) (server before : client.Server) (a : Acquired client.Session)
      (server' : client.Server)
      → ((k : Bytes) → holder server k ≡ holder before k)
      → AcquiredAt key server (a, server')
      → AcquiredAt key before (a, server')
  AcquiredAt-earlier key server before (mutex o) server' same h =
      (rw (← same key) h.0, λ k. rw (← same k) (h.1 k))
  AcquiredAt-earlier key server before err_locked server' same h =
      Spared-earlier key server before server' same h
  AcquiredAt-earlier key server before (not_acquired e) server' same h =
      Spared-earlier key server before server' same h
  AcquiredAt-earlier key server before acquire_panic server' same h =
      Spared-earlier key server before server' same h

  try_session-AcquiredAt :
      (key : Bytes) (before : client.Server) (p : Result client.Session × client.Server)
      → ((k : Bytes) → holder p.1 k ≡ holder before k)
      → ((o : client.Session) → p.0 ≡ ok o → (holder p.1 key ≡ some o → ⊥))
      → AcquiredAt key before (try_session client key p)
  unfolding try_session
  try_session-AcquiredAt key before (ok o, server) same fresh =
      let (reply, server') = client.try_lock o key server in
      AcquiredAt-earlier key server before _ server' same
        (reply-AcquiredAt o key server server' reply (try_lock-ReplyAt o key server (fresh o refl)))
  try_session-AcquiredAt key before (err e, server) same fresh = ((λ k ne. same k), (λ h. same key))
  try_session-AcquiredAt key before (panic, server) same fresh = ((λ k ne. same k), (λ h. same key))

  acquire_lock-AcquiredAt :
      (key : Bytes) (server : client.Server)
      → AcquiredAt key server (acquire_lock client key server)
  unfolding acquire_lock
  acquire_lock-AcquiredAt key server =
      try_session-AcquiredAt key server (client.new_session server) (laws.session_holder server)
        (λ o. laws.session_fresh o server key)

  store_lock-cases :
      (path : Bytes) (st : EtcdStore client) (p : Acquired client.Session × client.Server)
      → AcquiredAt (lock_key_of path) st.server p
      → ((((store_lock client path p st).0 ≡ ok true)
            × Granted path st (store_lock client path p st).1)
          ⊎ (((store_lock client path p st).0 ≢ ok true)
              × Refused path st (store_lock client path p st).1))
  unfolding store_lock
  store_lock-cases path st (mutex o, server) h =
      inl
        (refl, record { session = o; was_free = h.0; now_held = h.1; stored = refl; armed = refl })
  store_lock-cases path st (err_locked, server) h =
      inr ((λ e. cc), record { kept_mutexes = refl; kept_timers = refl; spared = h })
  store_lock-cases path st (not_acquired e, server) h =
      inr ((λ e. cc), record { kept_mutexes = refl; kept_timers = refl; spared = h })
  store_lock-cases path st (acquire_panic, server) h =
      inr ((λ e. cc), record { kept_mutexes = refl; kept_timers = refl; spared = h })

  -- `TakeLock` returns true exactly when etcd gave a free key to a new session and the node keeps
  -- its mutex and arms its timer. Otherwise no mutex, no timer and no lock has changed, but for a
  -- key of the path that was free: the call that failed may have locked it.
  pub take_lock-cases :
      (path : Bytes) (st : EtcdStore client)
      → ((((take_lock client path st).0 ≡ ok true) × Granted path st (take_lock client path st).1)
          ⊎ (((take_lock client path st).0 ≢ ok true)
              × Refused path st (take_lock client path st).1))
  unfolding take_lock
  take_lock-cases path st =
      store_lock-cases path st (acquire_lock client (lock_key_of path) st.server)
        (acquire_lock-AcquiredAt (lock_key_of path) st.server)

  -- The mutex under the path is gone and its timer stopped; its key is free if it was held by the
  -- mutex's session, and as before if it was not. Every other key is held as before.
  pub record Released (path : Bytes) (l : Lock client) (st st' : EtcdStore client) : Type 0 where
    pub freed : holder st.server l.lock_key ≡ some l.session → holder st'.server l.lock_key ≡ none
    pub lost :
        holder st.server l.lock_key ≢ some l.session
        → holder st'.server l.lock_key ≡ holder st.server l.lock_key
    pub others : (k : Bytes) → equal l.lock_key k ≡ false → holder st'.server k ≡ holder st.server k
    pub removed : st'.mutexes ≡ GoMap.delete path st.mutexes
    pub stopped : st'.timers ≡ stop_timer l.timer st.timers

  -- The mutex is still there and its timer armed; its key is held as before or free.
  pub record Stuck (l : Lock client) (st st' : EtcdStore client) : Type 0 where
    pub kept_mutexes : st'.mutexes ≡ st.mutexes
    pub kept_timers : st'.timers ≡ st.timers
    pub key_kept :
        (holder st'.server l.lock_key ≡ holder st.server l.lock_key)
        ⊎ (holder st'.server l.lock_key ≡ none)
    pub key_others :
        (k : Bytes) → equal l.lock_key k ≡ false → holder st'.server k ≡ holder st.server k

  abbrev UnlockedAt : Lock client → client.Server → Result (Unit {0}) × client.Server → Type 0
  UnlockedAt l server (r, server') =
      (r ≡ ok tt → holder server l.lock_key ≡ some l.session → holder server' l.lock_key ≡ none)
      × (holder server l.lock_key ≢ some l.session
          → holder server' l.lock_key ≡ holder server l.lock_key)
      × ((k : Bytes) → equal l.lock_key k ≡ false → holder server' k ≡ holder server k)
      × ((r ≡ ok tt → ⊥)
          → (holder server' l.lock_key ≡ holder server l.lock_key)
            ⊎ (holder server' l.lock_key ≡ none))

  unlocked-cases :
      (path : Bytes) (l : Lock client) (st : EtcdStore client)
      (p : Result (Unit {0}) × client.Server)
      → UnlockedAt l st.server p
      → ((((unlocked client path l p st).0 ≡ ok tt)
            × Released path l st (unlocked client path l p st).1)
          ⊎ (((unlocked client path l p st).0 ≢ ok tt)
              × Stuck l st (unlocked client path l p st).1))
  unfolding unlocked
  unlocked-cases path l st (ok tt, server) (own, gone, other, failed) = inl (
    refl,
    record { freed = own refl; lost = gone; others = other; removed = refl; stopped = refl },
  )
  unlocked-cases path l st (err e, server) (own, gone, other, failed) = inr (
    (λ e. cc),
    record {
      kept_mutexes = refl;
      kept_timers = refl;
      key_kept = failed (λ e. cc);
      key_others = other;
    },
  )
  unlocked-cases path l st (panic, server) (own, gone, other, failed) = inr (
    (λ e. cc),
    record {
      kept_mutexes = refl;
      kept_timers = refl;
      key_kept = failed (λ e. cc);
      key_others = other;
    },
  )

  -- `ReleaseLock` of a path with a mutex either forgets the mutex and stops its timer, and its key is
  -- free if the session of the mutex still held it; or fails and keeps both, whether its key is held
  -- as before or free. No other key changes. Of a path with no mutex it succeeds and changes nothing.
  pub release_lock-cases :
      (path : Bytes) (st : EtcdStore client)
      → ((GoMap.lookup path st.mutexes ≡ none) × (release_lock client path st ≡ (ok tt, st)))
        ⊎ ((l : Lock client) × (GoMap.lookup path st.mutexes ≡ some l)
            × ((((release_lock client path st).0 ≡ ok tt)
                  × Released path l st (release_lock client path st).1)
                ⊎ (((release_lock client path st).0 ≢ ok tt)
                    × Stuck l st (release_lock client path st).1)))
  unfolding release_lock
  release_lock-cases path st = elim (Option-cases (GoMap.lookup path st.mutexes)) [
    | inl e ↦ inl (e, rw (e, release_lock))
    | inr (l, e) ↦ inr (
      l,
      e,
      rw (e, release_lock)
          (unlocked-cases path l st (client.unlock l.session l.lock_key st.server) (
            laws.unlock_holder l.session l.lock_key st.server,
            laws.unlock_lost l.session l.lock_key st.server,
            (λ k. laws.unlock_other l.session l.lock_key k st.server),
            laws.unlock_failed l.session l.lock_key st.server,
          )),
    )
  ]
