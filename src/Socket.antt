-- ===== src/Socket.antt =====
-- coms/socket/src: the sockets. `States` is their enumerations and tables (rentry.rs, mng.rs), `Mng` the
-- fields of `SocketMngData` and its operations.
pub mod States
pub mod Mng
pub mod Requests
pub mod Failed
pub mod Runs
