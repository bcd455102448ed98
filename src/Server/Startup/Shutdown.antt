-- ===== src/Server/Startup/Shutdown.antt =====
-- cmd/server/main.go: behind the subscription, up to the end of the process.
use msgscript.Base.{
  ◌≡◌, refl, Option, none, some, ◌++◌, Bytes, text, Result, ok, err, panic, if◌then◌else◌,
}
use msgscript.Store.Etcd.Client.{EtcdClient}
use msgscript.Executor.{stop_all_executors, all_stop}
use msgscript.Executor.Choice.{all_stop-start_all_executors}
use msgscript.Server.Startup.{Flags, Host, Started, start_server, start_server-Parts}

module _ {client : EtcdClient} {Preload : Type 0} where
  -- An error of the subscription ends the process at once. Behind a signal, the deferred
  -- `StopAllExecutors` runs.
  unfoldable pub shut_down : Option Bytes → Started client Preload → Result (Unit {0})
  shut_down (some e) s = err (text "Failed to subscribe to NATS subjects: " ++ e)
  shut_down none s = if all_stop (stop_all_executors s.executors) then ok tt else panic

  -- In a build with podman, a server that started where podman could not be reached panics when it is
  -- asked to end; one that reached podman ends.
  pub start_server-shut_down :
      (flags : Flags) (h : Host client Preload) (s : Started client Preload)
      → start_server flags h ≡ ok s
      → shut_down none s ≡ (if h.podman_connected then ok tt else panic)
  unfolding shut_down
  start_server-shut_down flags h s started =
      rw
        (
          (start_server-Parts flags h s started).all_started,
          all_stop-start_all_executors h.podman_connected,
        )
        refl
