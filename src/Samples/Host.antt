-- ===== src/Samples/Host.antt =====
-- A server on the file backend, whose surroundings fail nowhere and set nothing.
use msgscript.Base.{true, [], none, Bytes, text, ok}
use msgscript.Store.File.{new_file_store}
use msgscript.Store.ByName.{file_backend}
use msgscript.Executor.{start_all_executors}
use msgscript.Server.Startup.{Flags, Host, Started}
use msgscript.Samples.Etcd.{sample_client, sample_outside}

abbrev pub file_flags : Flags
file_flags = record {
  backend_name = text "file";
  etcd_url = text "localhost:2379";
  nats_url = [];
  script_dir = text ".";
  library_dir = [];
  plugin_dir = [];
}

abbrev pub plain_host : Host sample_client Bytes
plain_host = record {
  telemetry_traces = [];
  tracing = record {
    endpoint = [];
    new_stdout_exporter = ok tt;
    new_grpc_client = λ endpoint. ok tt;
    new_grpc_exporter = ok tt;
    merged_resource = ok tt;
    cleanup = λ fn. none;
  };
  outside = sample_outside;
  nats_url = [];
  new_nats_server = ok (text "nats://127.0.0.1:4222");
  connect = λ url. ok tt;
  plugin_listing = λ dir. ok [];
  podman_connected = true;
}

abbrev pub file_started : Started sample_client Bytes
file_started = record {
  store = file_backend new_file_store;
  url = text "nats://127.0.0.1:4222";
  plugins = [];
  executors = start_all_executors true;
}
