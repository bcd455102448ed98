-- ===== src/Server.antt =====
-- cmd/server: the server, which answers NATS messages by running scripts and HTTP requests by
-- sending NATS messages.
pub mod Reply
pub mod Requests
pub mod Dispatch
pub mod Http
pub mod Telemetry
pub mod Startup
