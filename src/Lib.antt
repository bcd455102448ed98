-- ===== src/Lib.antt =====
-- A model of msgscript, a server that runs scripts for NATS messages and HTTP requests, and what
-- holds of it.
--
-- A message on a NATS subject reaches the handler of the server (cmd/server/main.go). It asks the
-- store for the scripts of the subject, hands each to the executor that the script names, collects
-- the results and publishes one reply. The HTTP side (cmd/server/http.go) turns a request into such
-- a message and the reply into a response. Stores keep scripts and libraries and lend the locks
-- under which the Lua executor runs a script.
--
-- The files:
-- - Base: the shared names. Go strings and byte slices are lists of numbers (Base/ByteString), maps
--   are association lists whose order stands for the order of a `range` loop (Base/GoMap), results
--   are a value, an error with its text, or a panic (Base/Errors). Base/Strings and Base/Paths have
--   the functions of `strings` and `path` that the source uses, Base/Utf8 says which bytes are UTF-8.
-- - Script (script/script.go): `read` is Script.Read on the lines of Script/Scanner, which is
--   bufio.Scanner with its limit of 64 KiB; Script/Header has getHeaderKey and getHeaderValue,
--   Script/Directory has ReadScriptDirectory and ReadLibraryDirectory. Script/Print writes a script
--   with its headers, for the round trip; it is no code of the program.
-- - Store: Store/Interface is the interface ScriptStore of store/store.go and what it promises.
--   Store/ByName is StoreByName, with Store/Loading for the file backend. Store/Dev is store/dev.go,
--   with NewDevStore in Store/Dev/Opening, Store/File is store/file.go, Store/Etcd is store/etcd.go,
--   its locks in Store/Etcd/Mutex. Store/Etcd/Cluster puts several nodes before one etcd.
--   Store/Watching has the two WatchScripts.
-- - Executor (executor/executor.go): messages, results and the choice of an executor. Executor/Lua
--   is executor/lua_executor.go, Executor/Wasm is executor/wasm_executor.go, Executor/Podman is
--   executor/podman_executor.go; Executor/Podman/Runs puts several runs side by side.
-- - Server (cmd/server): Server/Reply is reply.go, Server/Requests is messages.go, Server/Dispatch
--   is the function that main.go subscribes, Server/Http is http.go, Server/Http/Pages is
--   http_scripts.go and http_utils.go, Server/Http/Endpoints is http_endpoints.go, and
--   Server/Http/Routes has the routes of http.go, over gorilla/mux as a parameter.
--   Server/Telemetry is otel.go, Server/Startup the start and the end of main. Server/Dispatch/Channel
--   has the goroutines of the scripts and their channel, as steps.
-- - LuaModules: lua/etcd.go, lua/nats.go, plugins/plugin.go and plugins/vault/main.go.
-- - Cli (cmd/cli): the commands add, rm and list; Cli/Libraries is cmd_lib_add.go, Cli/Dev is
--   cmd_dev.go, Cli/Proxy is cmd_devhttp.go, Cli/Commands opens the store of a command, and
--   Cli/Registration has the flags that the functions `init` register and the commands on their
--   arguments, over cobra as a parameter (Cli/Cobra).
-- - EndToEnd: the parts together, from a script file to the answer to a message.
-- - Samples and Tests: concrete stand-ins for the parameters, and runs of the model.
--
-- Parameters stand for what is not part of the repository: the etcd client with its laws, where a
-- call that fails may have been applied all the same (Store/Etcd/Client), JSON, the Lua machine (Executor/Lua/Vm), wasmtime (Executor/Wasm/Engine),
-- podman (Executor/Podman/Client), cobra with its laws (Cli/Cobra), the Vault, NATS and the
-- templates. The order in which the results of the scripts arrive is a parameter, and so is what an
-- executor returns, since the scripts run side by side. A panic is a value, and so is the nil
-- pointer where a function returns one. No function needs fuel: each loop runs over a list, and a
-- run of the podman executor has five parts.
--
-- Not modelled: the choice of a command by its name and the usages of the flags, the registration
-- of the Lua functions with the Lua machine, the embedded files, the plugins that only bind a
-- library, and logging and the spans of the traces. A lease of etcd that runs out, the timeout of
-- an HTTP request and that of a Lua script are not modelled either: each needs a clock.
pub mod Base
pub mod Script
pub mod Store
pub mod Executor
pub mod Server
pub mod LuaModules
pub mod Cli
pub mod EndToEnd
pub mod Samples
pub mod Tests
