-- ===== src/Samples.antt =====
-- Concrete stand-ins for what the program takes from others, for the tests: an etcd of one server, a
-- coding of scripts, a Lua machine and the surroundings of the server.
pub mod Etcd
pub mod Lua
pub mod Nats
pub mod Web
pub mod Cobra
pub mod Host
pub mod Executors
use msgscript.Base.{text, [], ◌∷◌, false, true}
use msgscript.Script.{Script}

abbrev pub hello_script : Script
hello_script = record {
  content = text "return 1";
  executor = [];
  html = false;
  lib_keys = [];
  name = [];
  subject = [];
}
