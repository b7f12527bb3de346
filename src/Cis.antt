-- ===== src/Cis.antt =====
-- src/cis: the projects with their jobs and builds, and the sessions of builds with their subscribers.
pub mod Stream
pub mod JobConf
pub mod Manager
pub mod Structs
pub mod Projects
pub mod Session
pub mod SessionManager
