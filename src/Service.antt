-- ===== src/Service.antt =====
-- coms/service/src: the services. `States` is their enumerations and tables (rentry.rs, mng.rs), `Mng`
-- the fields of `ServiceMng` and the calls that change them, `Stop` and `Start` the entry into each
-- state, `Child` and `Message` what a child process and a notification do.
pub mod States
pub mod Mng
pub mod Stop
pub mod Start
pub mod Child
pub mod Message
pub mod Requests
pub mod Ended
pub mod Restart
