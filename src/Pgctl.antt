-- ===== src/Pgctl.antt =====
-- pkg/pgctl: the states of a migration, what each does to the two databases, and how it is resumed.
pub mod State
pub mod Postgres
pub mod Execute
pub mod Tools
pub mod Names
