-- ===== src/Executor/Podman.antt =====
-- executor/podman_executor.go and executor/nopodman_executor.go: the execution of a message in a
-- container. A run is cut into the stages between which other runs can go on; the pipe to the
-- container, logging and tracing are left out.
pub mod Client
pub mod Runs
pub mod Stopping
pub mod Cleanup
use msgscript.Base.{
  ℕ, zero, suc, Bool, true, false, List, [], ◌∷◌, ◌++◌, Option, none, some, Bytes, text, take,
  Result, ok, err, panic, ◌>>=◌, wrap_err, if◌then◌else◌,
}
use msgscript.Base.GoMap
use msgscript.Base.GoMap.{GoMap}
use msgscript.Base.Int.{ℤ}
use msgscript.Script.{Script, read_string}
use msgscript.Executor.{
  Message, payload_bytes, ScriptResult, result_with_error, Handled, returned, panicked,
  created_temp_file,
}
use Client.{ContainerConfig, Spec, PodmanClient}

-- What a run knows behind `CreateWithSpec` and the two temporary files.
pub record Run : Type 0 where
  pub name : Bytes
  pub id : Bytes
  pub stdout : Bytes
  pub stderr : Bytes

-- How far a run of `HandleMessage` has come: at its start, behind the temporary files, behind
-- `containers.Store`, behind `Start`, behind `Wait`, at its end, or at the channel of a failed
-- `Attach`.
pub data Stage : Type 0 where
  arrived : Stage
  created : Run → Stage
  tracked : Run → Stage
  started : Run → Stage
  exited : Run → ℤ → Stage
  done : Handled → Stage
  blocked : Stage

-- `"msgscript-" + uuid.New().String()[:8]`
unfoldable pub container_name : Bytes → Bytes
container_name uuid = text "msgscript-" ++ take 8 uuid

-- The error of `executeInContainer`, as `HandleMessage` gives it back.
unfoldable pub execution_failed : Bytes → Stage
execution_failed e = done (returned (result_with_error (text "failed to execute container: " ++ e)))

-- `NewPodmanExecutor`, on what `bindings.NewConnection` returned: whether there is an executor.
unfoldable pub new_podman_executor : Result (Unit {0}) → Result (Unit {0})
new_podman_executor connected = wrap_err (text "failed to connect to the podman socket: ") connected

-- `"unix:" + sock_dir + "/podman/podman.sock"`
abbrev pub podman_socket : Bytes → Bytes
podman_socket sock_dir = text "unix:" ++ (sock_dir ++ text "/podman/podman.sock")

module _ (client : PodmanClient) where
  -- The executor's map from the names of containers to their identities, and podman.
  pub record PodmanState : Type 0 where
    pub containers : GoMap Bytes
    pub server : client.Server

  unfoldable pub container_spec : ContainerConfig client.Mount → Message → Bytes → Spec client.Mount
  container_spec cfg msg name = record {
    image = cfg.image;
    command = cfg.command;
    name = name;
    env =
        (text "SUBJECT", msg.subject)
        ∷ (text "URL", msg.url)
        ∷ (text "PAYLOAD", payload_bytes msg)
        ∷ (text "METHOD", msg.method)
        ∷ [];
    mounts = cfg.mounts;
    user = cfg.user;
    groups = cfg.groups;
    privileged = cfg.privileged;
    stdin = true;
    terminal = true;
    remove = true;
  }

  failed : Bytes → Bytes → client.Server → Stage × client.Server
  unfolding execution_failed
  failed prefix e server = (execution_failed (prefix ++ e), server)

  -- Behind the file for stdout: the file for stderr.
  create_stderr : Bytes → Bytes → Bytes → Result Bytes × client.Server → Stage × client.Server
  create_stderr name id stdout (ok stderr, server) =
      (created (record { name = name; id = id; stdout = stdout; stderr = stderr }), server)
  create_stderr name id stdout (err e, server) =
      failed (text "failed to create temp file: failed to create temp file: ") e server
  create_stderr name id stdout (panic, server) = (done panicked, server)

  create_stdout : Bytes → Bytes → Result Bytes × client.Server → Stage × client.Server
  create_stdout name id (ok stdout, server) =
      create_stderr name id stdout (client.create_temp (text "msgscript-ctn-stderr-*") server)
  create_stdout name id (err e, server) =
      failed (text "failed to create temp file: failed to create temp file: ") e server
  create_stdout name id (panic, server) = (done panicked, server)

  -- Behind `CreateWithSpec`.
  create_files : Bytes → Result Bytes × client.Server → Stage × client.Server
  create_files name (ok id, server) =
      create_stdout name id (client.create_temp (text "msgscript-ctn-stdout-*") server)
  create_files name (err e, server) =
      failed (text "failed to create container with spec: ") e server
  create_files name (panic, server) = (done panicked, server)

  -- Behind `images.Pull`.
  create_container :
      ContainerConfig client.Mount
      → Message
      → Bytes
      → Result (Unit {0}) × client.Server
      → Stage × client.Server
  create_container cfg msg name (ok _, server) =
      create_files name (client.create_with_spec (container_spec cfg msg name) server)
  create_container cfg msg name (err e, server) =
      failed (text "failed to pull image " ++ (cfg.image ++ text ": ")) e server
  create_container cfg msg name (panic, server) = (done panicked, server)

  -- Behind the configuration.
  pull_image :
      Message
      → Bytes
      → Result (ContainerConfig client.Mount)
      → client.Server
      → Stage × client.Server
  pull_image msg name (ok cfg) server = create_container cfg msg name (client.pull cfg.image server)
  pull_image msg name (err e) server =
      failed (text "failed to decode container configuration: ") e server
  pull_image msg name panic server = (done panicked, server)

  -- From the start to the temporary files. The script is read again from its content, which never
  -- fails.
  unfoldable pub prepare : Message → Bytes → Script → client.Server → Stage × client.Server
  unfolding pull_image create_container create_files create_stdout create_stderr failed
  prepare msg name scr server =
      pull_image msg name (client.unmarshal (read_string scr.content).content) server

  -- `<-attachReady` and `containers.Store`
  unfoldable pub track : Run → PodmanState → Stage × PodmanState
  track run st =
      if client.attach_ready run.id st.server
      then (tracked run, record st { containers = GoMap.insert run.name run.id st.containers })
      else (blocked, st)

  start_container : Run → Result (Unit {0}) → Stage
  unfolding execution_failed
  start_container run (ok _) = started run
  start_container run (err e) = execution_failed (text "failed to start container: " ++ e)
  start_container run panic = done panicked

  wait_container : Run → Result ℤ → Stage
  unfolding execution_failed
  wait_container run (ok code) = exited run code
  wait_container run (err e) = execution_failed (text "Container exited with error: " ++ e)
  wait_container run panic = done panicked

  -- The two files, and the result.
  container_result : Run → ℤ → client.Server → Result ScriptResult
  container_result run code server = do
    stdout ←
        wrap_err (text "failed to read stdout file " ++ (run.stdout ++ text ": "))
          (client.read_file run.stdout server)
    stderr ←
        wrap_err (text "failed to read stderr file " ++ (run.stderr ++ text ": "))
          (client.read_file run.stderr server)
    ok (record { code = code; error = stderr; headers = []; is_html = false; payload = stdout })

  ended : Result ScriptResult → Stage
  unfolding execution_failed
  ended (ok res) = done (returned res)
  ended (err e) = execution_failed e
  ended panic = done panicked

  with_server : PodmanState → Stage × client.Server → Stage × PodmanState
  with_server st (stage, server) = (stage, record st { server = server })

  -- The next part of a run, up to the place where it can wait for others.
  unfoldable pub advance : Message → Script → Bytes → Stage → PodmanState → Stage × PodmanState
  unfolding with_server track start_container wait_container ended container_result
  advance msg scr uuid arrived st = with_server st (prepare msg (container_name uuid) scr st.server)
  advance msg scr uuid (created run) st = track run st
  advance msg scr uuid (tracked run) st =
      let (outcome, server) = client.start run.id st.server in
      (start_container run outcome, record st { server = server })
  advance msg scr uuid (started run) st =
      let (outcome, server) = client.wait run.id st.server in
      (wait_container run outcome, record st { server = server })
  advance msg scr uuid (exited run code) st = (
    ended (container_result run code st.server),
    record st { containers = GoMap.delete run.name st.containers },
  )
  advance msg scr uuid (done h) st = (done h, st)
  advance msg scr uuid blocked st = (blocked, st)

  advance_times : ℕ → Message → Script → Bytes → Stage × PodmanState → Stage × PodmanState
  advance_times zero msg scr uuid now = now
  advance_times (suc n) msg scr uuid (stage, st) =
      advance_times n msg scr uuid (advance msg scr uuid stage st)

  -- `HandleMessage` of the podman executor, when nothing else goes on beside it.
  unfoldable pub podman_handle_message :
      Message → Script → Bytes → PodmanState → Stage × PodmanState
  unfolding advance_times
  podman_handle_message msg scr uuid st = advance_times 5 msg scr uuid (arrived, st)

  -- `containers.Kill` for each entry of the map, whatever it returns
  unfoldable pub kill_all : GoMap Bytes → client.Server → client.Server
  kill_all [] server = server
  kill_all ((name, id) ∷ entries) server = kill_all entries (client.kill id server).1

  -- `Stop`
  unfoldable pub podman_stop : PodmanState → PodmanState
  unfolding kill_all
  podman_stop st = record st { server = kill_all st.containers st.server }

-- `HandleMessage` of a build without podman
unfoldable pub no_podman_handle_message : Message → Script → Handled
no_podman_handle_message msg scr =
    returned (result_with_error (text "msgscript wasn't built with podman support"))
