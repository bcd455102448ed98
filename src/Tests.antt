-- ===== src/Tests.antt =====
-- Runs of the code at concrete inputs, and the theorems applied to them.
mod Scripts
mod Stores
mod Etcd
mod Lua
mod Server
mod Http
mod Executors
mod Cli
mod Commands
mod LuaModules
mod Startup
mod EndToEnd
