-- ===== src/Ssh.antt =====
-- internal/ssh: bounded output and the pool of connections.
pub mod LimitedBuffer
pub mod Pool
pub mod Client
mod Tests
