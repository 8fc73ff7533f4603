-- ===== src/DbClient.antt =====
-- pkg/dbclient/client.go: the client that administers the databases of a server. The queries and
-- statements that it sends are those of `Sql`; its metrics and logs are left out.
pub mod Connect
pub mod Databases
pub mod Roles
pub mod Users
pub mod Existing
pub mod Functions
