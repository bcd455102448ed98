-- ===== src/Samples/Executors.antt =====
-- A podman whose state is the list of the containers that run, with the law of its kills, and an
-- engine for WebAssembly whose modules print what they are told.
use msgscript.Base.{
  Bool, true, false, [], none, some, Bytes, text, equal, ok, err, equal_refl, ◌≡◌, if◌then◌else◌,
  arith,
}
use msgscript.Base.Int.{pos}
use msgscript.Executor.Wasm.Engine.{WasmEngine}
use msgscript.Executor.Podman.Client.{PodmanClient, KillLaws}

-- `id` runs no longer.
abbrev pub stopped : Bytes → (Bytes → Bool) → Bytes → Bool
stopped id s j = if equal id j then false else s j

-- Containers are known by their names; each exits with 3 and prints `out` twice.
abbrev pub sample_podman : PodmanClient
sample_podman = record {
  Mount = Unit {0};
  Server = Bytes → Bool;
  unmarshal = λ b.
      ok (record {
        image = b;
        mounts = [];
        command = [];
        privileged = false;
        user = [];
        groups = [];
      });
  new_connection = λ socket. ok tt;
  pull = λ image s. (ok tt, s);
  create_with_spec = λ spec s. (ok spec.name, s);
  start = λ id s. (ok tt, λ j. if equal id j then true else s j);
  wait = λ id s. (ok (pos 3), stopped id s);
  attach_ready = λ id s. true;
  kill = λ id s. (ok tt, stopped id s);
  create_temp = λ pattern s. (ok pattern, s);
  read_file = λ name s. ok (text "out");
}

pub stopped_self : (id : Bytes) (s : Bytes → Bool) → stopped id s id ≡ false
stopped_self id s = rw (equal_refl id)

pub stopped_kept : (id j : Bytes) (s : Bytes → Bool) → s id ≡ false → stopped j s id ≡ false
stopped_kept id j s h = ground arith

abbrev pub sample_kills : KillLaws sample_podman
sample_kills = record {
  running = λ s id. s id;
  kill-running = λ id s _. stopped_self id s;
  kill-stopped = stopped_kept;
}

-- The file of a module is the module; it prints the file's name, and `bad` is no module.
abbrev pub sample_engine : WasmEngine
sample_engine = record {
  Module = Bytes;
  Instance = Bytes;
  Func = Bytes;
  read_file = λ name. ok name;
  bad_verb = λ e. e;
  create_temp = λ pattern. ok pattern;
  new_module = λ b. if equal b (text "bad") then err (text "no module") else ok b;
  define_wasi = ok tt;
  instantiate = λ config b. ok b;
  get_func = λ b name. some b;
  call = λ b. record {
    error = none;
    stdout = record { sought = ok tt; content = ok b };
    stderr = record { sought = ok tt; content = ok [] };
  };
  unmarshal = λ b res. (res, true);
}
