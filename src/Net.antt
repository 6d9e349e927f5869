-- ===== src/Net.antt =====
-- What the handlers of internal/gateway see of Go: errors, panics, connections and the pipe.
pub mod Exit
pub mod Conn
pub mod World
pub mod Pipe
pub mod Reader
pub mod Inject
