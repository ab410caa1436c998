-- ===== src/Worker.antt =====
-- The worker's side of its connection: internal/infrastructure/websocket/client/client.go is Link and
-- Read, and internal/domain/client/entity/innerServer.go with
-- internal/application/service/client/service.go is Serve, one request, and Loop, all of them.
pub mod Link
pub mod Tidy
pub mod Reconnect
pub mod Read
pub mod Serve
pub mod Loop
mod Examples
