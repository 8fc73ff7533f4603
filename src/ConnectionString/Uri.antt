-- ===== src/ConnectionString/Uri.antt =====
-- api/v1/databaseclaim_types.go: a connection as a URI, and back. net/url parses it, in `Sql`.
use db_controller.Prelude.{
  String, Option, none, some, get_or, has_char, before, after, if◌then◌else◌,
}
use db_controller.Api.Connection.{ConnectionInfo, no_connection}
use db_controller.Api.Error.{Result, ok, ◌>>=◌}
use db_controller.ConnectionString.{postgres_uri}
use db_controller.Sql.{Sql, Url}

-- Uri, of a pointer
unfoldable pub uri : (String → String) → Option ConnectionInfo → String
unfolding postgres_uri
uri query_escape none = ""
uri query_escape (some c) = postgres_uri query_escape c

-- ParseUri behind url.Parse; the database is what stands between the first two slashes of the path
unfoldable pub connection_of : Url → ConnectionInfo
connection_of u =
    let c = record no_connection {
      host = u.hostname;
      port = u.port;
      username = u.username;
      password = get_or u.password "";
    } in
    if has_char b'/' u.path
    then record c { database_name = before b'/' (after b'/' u.path); ssl_mode = u.ssl_mode }
    else c

-- ParseUri
unfoldable pub parse_uri : {W : Type 0} → Sql W → String → Result ConnectionInfo
unfolding connection_of
parse_uri sql dsn = do u ← sql.parse_url dsn; ok (connection_of u)
