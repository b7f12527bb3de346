-- ===== src/Auth.antt =====
-- src/auth_manager.cpp, over the database. A method gives the database, its value, and whether it
-- set the error code. The clock and the random texts are arguments.
pub mod Users
pub mod Tokens
pub mod Keys
