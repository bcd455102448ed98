-- ===== src/Executor/Podman/Client.antt =====
-- What executor/podman_executor.go takes from others: the bindings of podman, files and JSON.
use msgscript.Base.{Bool, false, List, Bytes, Result, ok, ◌≡◌}
use msgscript.Base.GoMap.{GoMap}
use msgscript.Base.Int.{ℤ}

-- `containerConfiguration`; a mount is a type of podman's.
pub record ContainerConfig (Mount : Type 0) : Type 0 where
  pub image : Bytes
  pub mounts : List Mount
  pub command : List Bytes
  pub privileged : Bool
  pub user : Bytes
  pub groups : List Bytes

-- The fields of `specgen.SpecGenerator` that the source sets.
pub record Spec (Mount : Type 0) : Type 0 where
  pub image : Bytes
  pub command : List Bytes
  pub name : Bytes
  pub env : GoMap Bytes
  pub mounts : List Mount
  pub user : Bytes
  pub groups : List Bytes
  pub privileged : Bool
  pub stdin : Bool
  pub terminal : Bool
  pub remove : Bool

pub record PodmanClient : Type 1 where
  pub Mount : Type 0
  -- The containers, the images and the files.
  pub Server : Type 0
  -- `json.Unmarshal` into a new configuration
  pub unmarshal : Bytes → Result (ContainerConfig Mount)
  -- `bindings.NewConnection`
  pub new_connection : Bytes → Result (Unit {0})
  -- `images.Pull`, `containers.CreateWithSpec` with the identity of the container, `Start`, and `Wait`
  -- with the exit code
  pub pull : Bytes → Server → Result (Unit {0}) × Server
  pub create_with_spec : Spec Mount → Server → Result Bytes × Server
  pub start : Bytes → Server → Result (Unit {0}) × Server
  pub wait : Bytes → Server → Result ℤ × Server
  -- whether `containers.Attach` tells the channel that it is ready; without that its caller waits for
  -- ever
  pub attach_ready : Bytes → Server → Bool
  -- `containers.Kill` with SIGKILL, whose error the source drops
  pub kill : Bytes → Server → Result (Unit {0}) × Server
  -- `os.CreateTemp`: the name of the file; `os.ReadFile`
  pub create_temp : Bytes → Server → Result Bytes × Server
  pub read_file : Bytes → Server → Result Bytes

-- A container whose kill succeeded no longer runs, and no kill starts a container.
pub record KillLaws (client : PodmanClient) : Type 0 where
  pub running : client.Server → Bytes → Bool
  pub kill-running :
      (id : Bytes) (s : client.Server)
      → (client.kill id s).0 ≡ ok tt
      → running (client.kill id s).1 id ≡ false
  pub kill-stopped :
      (id j : Bytes) (s : client.Server)
      → running s id ≡ false
      → running (client.kill j s).1 id ≡ false
