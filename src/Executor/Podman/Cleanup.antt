-- ===== src/Executor/Podman/Cleanup.antt =====
-- What one run of the podman executor leaves in the map of containers.
use msgscript.Base.{
  ℕ, zero, suc, true, none, some, ◌≡◌, ◌⊎◌, inl, inr, refl, ap, ◌++◌, arith, Bytes, text, equal,
  equal_iff, Result, ok, err, panic, if◌then◌else◌, Bool-cases,
}
use msgscript.Base.GoMap
use msgscript.Base.GoMap.{GoMap, lookup-insert, lookup-delete}
use msgscript.Base.Int.{ℤ}
use msgscript.Script.{Script, read_string}
use msgscript.Executor.{Message, ScriptResult, Handled, returned, panicked, result_with_error}
use msgscript.Executor.Podman.{
  Run, Stage, arrived, created, tracked, started, exited, done, blocked, container_name,
  execution_failed, PodmanState, failed, create_stderr, create_stdout, create_files,
  create_container, pull_image, prepare, track, start_container, wait_container, ended, advance,
  advance_times, podman_handle_message,
}
use msgscript.Executor.Podman.Client.{ContainerConfig, PodmanClient}
use msgscript.Executor.Podman.Stopping.{is_over, podman_handle_message-is_over}

-- The outcome of a run whose `Start` or `Wait` failed.
pub data StoppedShort : Handled → Type 0 where
  not_started :
      (e : Bytes)
      → StoppedShort (
          returned (
            result_with_error
              (text "failed to execute container: " ++ (text "failed to start container: " ++ e))))
  not_awaited :
      (e : Bytes)
      → StoppedShort (
          returned (
            result_with_error (
              text "failed to execute container: " ++ (text "Container exited with error: " ++ e))))
  crashed : StoppedShort panicked

-- The same identities under the same names.
abbrev pub Same : GoMap Bytes → GoMap Bytes → Type 0
Same before after = (k : Bytes) → GoMap.lookup k after ≡ GoMap.lookup k before

-- The same but for one name more.
abbrev pub With : Bytes → Bytes → GoMap Bytes → GoMap Bytes → Type 0
With name id before after =
    (k : Bytes) → GoMap.lookup k after ≡ (if equal name k then some id else GoMap.lookup k before)

-- What the map has while a run goes on.
At : Bytes → GoMap Bytes → Stage → GoMap Bytes → Type 0
At name before arrived c = Same before c
At name before (created run) c = (run.name ≡ name) × Same before c
At name before (tracked run) c = (run.name ≡ name) × With name run.id before c
At name before (started run) c = (run.name ≡ name) × With name run.id before c
At name before (exited run code) c = (run.name ≡ name) × With name run.id before c
At name before (done h) c =
    Same before c ⊎ (StoppedShort h × ((id : Bytes) × With name id before c))
At name before blocked c = Same before c

over-At :
    (name : Bytes) (before : GoMap Bytes) (stage : Stage) (c : GoMap Bytes)
    → is_over stage ≡ true
    → At name before stage c
    → Same before c
      ⊎ ((h : Handled) × (stage ≡ done h) × StoppedShort h × ((id : Bytes) × With name id before c))
unfolding At
over-At name before arrived c o h = inl h
over-At name before (created run) c o h = inl h.1
over-At name before (tracked run) c o h = cc
over-At name before (started run) c o h = cc
over-At name before (exited run code) c o h = cc
over-At name before (done r) c o (inl h) = inl h
over-At name before (done r) c o (inr (s, h)) = inr (r, refl, s, h)
over-At name before blocked c o h = inl h

module _ (client : PodmanClient) where
  create_stderr-At :
      (name id stdout : Bytes) (before c : GoMap Bytes) (made : Result Bytes × client.Server)
      → Same before c
      → At name before (create_stderr client name id stdout made).0 c
  unfolding create_stderr failed execution_failed At
  create_stderr-At name id stdout before c (ok stderr, server) h = (refl, h)
  create_stderr-At name id stdout before c (err e, server) h = inl h
  create_stderr-At name id stdout before c (panic, server) h = inl h

  create_stdout-At :
      (name id : Bytes) (before c : GoMap Bytes) (made : Result Bytes × client.Server)
      → Same before c
      → At name before (create_stdout client name id made).0 c
  unfolding create_stdout failed execution_failed At
  create_stdout-At name id before c (ok stdout, server) h =
      create_stderr-At name id stdout before c _ h
  create_stdout-At name id before c (err e, server) h = inl h
  create_stdout-At name id before c (panic, server) h = inl h

  create_files-At :
      (name : Bytes) (before c : GoMap Bytes) (made : Result Bytes × client.Server)
      → Same before c
      → At name before (create_files client name made).0 c
  unfolding create_files failed execution_failed At
  create_files-At name before c (ok id, server) h = create_stdout-At name id before c _ h
  create_files-At name before c (err e, server) h = inl h
  create_files-At name before c (panic, server) h = inl h

  create_container-At :
      (cfg : ContainerConfig client.Mount) (msg : Message) (name : Bytes) (before c : GoMap Bytes)
      (pulled : Result (Unit {0}) × client.Server)
      → Same before c
      → At name before (create_container client cfg msg name pulled).0 c
  unfolding create_container failed execution_failed At
  create_container-At cfg msg name before c (ok _, server) h = create_files-At name before c _ h
  create_container-At cfg msg name before c (err e, server) h = inl h
  create_container-At cfg msg name before c (panic, server) h = inl h

  pull_image-At :
      (msg : Message) (name : Bytes) (cfg : Result (ContainerConfig client.Mount))
      (server : client.Server) (before c : GoMap Bytes)
      → Same before c
      → At name before (pull_image client msg name cfg server).0 c
  unfolding pull_image failed execution_failed At
  pull_image-At msg name (ok cfg) server before c h = create_container-At cfg msg name before c _ h
  pull_image-At msg name (err e) server before c h = inl h
  pull_image-At msg name panic server before c h = inl h

  start-At :
      (name : Bytes) (before c : GoMap Bytes) (run : Run) (r : Result (Unit {0}))
      → (run.name ≡ name) × With name run.id before c
      → At name before (start_container client run r) c
  unfolding start_container execution_failed At
  start-At name before c run (ok _) h = h
  start-At name before c run (err e) h = inr (not_started e, (run.id, h.1))
  start-At name before c run panic h = inr (crashed, (run.id, h.1))

  wait-At :
      (name : Bytes) (before c : GoMap Bytes) (run : Run) (r : Result ℤ)
      → (run.name ≡ name) × With name run.id before c
      → At name before (wait_container client run r) c
  unfolding wait_container execution_failed At
  wait-At name before c run (ok _) h = h
  wait-At name before c run (err e) h = inr (not_awaited e, (run.id, h.1))
  wait-At name before c run panic h = inr (crashed, (run.id, h.1))

  ended-At :
      (name : Bytes) (before c : GoMap Bytes) (res : Result ScriptResult)
      → Same before c
      → At name before (ended client res) c
  unfolding ended execution_failed At
  ended-At name before c (ok r) h = inl h
  ended-At name before c (err e) h = inl h
  ended-At name before c panic h = inl h

  advance-At :
      (msg : Message) (scr : Script) (uuid : Bytes) (before : GoMap Bytes) (stage : Stage)
      (st : PodmanState client)
      → GoMap.lookup (container_name uuid) before ≡ none
      → At (container_name uuid) before stage st.containers
      → let p = advance client msg scr uuid stage st in
        At (container_name uuid) before p.0 p.1.containers
  unfolding advance prepare track At
  advance-At msg scr uuid before arrived st fresh h =
      pull_image-At msg (container_name uuid) (client.unmarshal (read_string scr.content).content)
        st.server before st.containers h
  advance-At msg scr uuid before (created run) st fresh h =
      elim (Bool-cases (client.attach_ready run.id st.server)) [
        | inl b ↦
            rw b
              (h.0, λ k. ground (arith, h.0, h.1 k, lookup-insert run.name k run.id st.containers))
        | inr b ↦ rw b h.1
      ]
  advance-At msg scr uuid before (tracked run) st fresh h =
      start-At (container_name uuid) before st.containers run (client.start run.id st.server).0 h
  advance-At msg scr uuid before (started run) st fresh h =
      wait-At (container_name uuid) before st.containers run (client.wait run.id st.server).0 h
  advance-At msg scr uuid before (exited run code) st fresh h =
      ended-At (container_name uuid) before _ _ (λ k. ground (
        arith,
        h.0,
        h.1 k,
        fresh,
        lookup-delete run.name k st.containers,
        equal_iff (container_name uuid) k,
        ap (λ q. GoMap.lookup q before) {x = container_name uuid} {y = k},
      ))
  advance-At msg scr uuid before (done r) st fresh h = h
  advance-At msg scr uuid before blocked st fresh h = h

  advance_times-At :
      (n : ℕ) (msg : Message) (scr : Script) (uuid : Bytes) (before : GoMap Bytes)
      (now : Stage × PodmanState client)
      → GoMap.lookup (container_name uuid) before ≡ none
      → At (container_name uuid) before now.0 now.1.containers
      → let p = advance_times client n msg scr uuid now in
        At (container_name uuid) before p.0 p.1.containers
  unfolding advance_times
  advance_times-At zero msg scr uuid before now fresh h = h
  advance_times-At (suc n) msg scr uuid before (stage, st) fresh h =
      advance_times-At n msg scr uuid before (advance client msg scr uuid stage st) fresh
        (advance-At msg scr uuid before stage st fresh h)

  -- A run that goes on alone, under a name that the map does not have, leaves the map as it was; or
  -- its `Start` or its `Wait` failed or panicked, and the map has one name more, that of its
  -- container.
  pub podman_handle_message-Same :
      (msg : Message) (scr : Script) (uuid : Bytes) (st : PodmanState client)
      → GoMap.lookup (container_name uuid) st.containers ≡ none
      → let p = podman_handle_message client msg scr uuid st in
        Same st.containers p.1.containers
        ⊎ ((h : Handled) × (p.0 ≡ done h)
            × StoppedShort h
            × ((id : Bytes) × With (container_name uuid) id st.containers p.1.containers))
  unfolding podman_handle_message At
  podman_handle_message-Same msg scr uuid st fresh =
      over-At (container_name uuid) st.containers _ _
        (podman_handle_message-is_over client msg scr uuid st)
        (advance_times-At 5 msg scr uuid st.containers (arrived, st) fresh (λ k. refl))
