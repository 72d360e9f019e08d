-- ===== src/Tapfd.antt =====
-- The tap descriptor protocol: pkg/tapfd and the provider of cmd/connector-ctl/tapfd_server.go.
pub mod Request
pub mod Response
pub mod Payload
pub mod Receive
pub mod Open
pub mod Provider
