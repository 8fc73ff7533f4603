-- ===== src/ConnectionString.antt =====
-- pkg/dbclient/client.go: the connection strings that a secret holds. `QueryEscape` is net/url's.
pub mod Uri
pub mod Unambiguous
use Prim.Native.Char.{Char, code}
use Prim.Native.String.{String, [], ◌∷◌, count}
use text.Mathlib.Text.{starts_with}
use mathlib.Core.Path.{◌≡◌, refl}
use text.Mathlib.TextLemmas.{nil-append, cons-append}
use db_controller.Prelude.{
  ℕ, ◌-◌, ◌&&◌, Bool, true, false, ◌||◌, eqb, ◌<>◌, Bool-cases, if◌then◌else◌, inl, inr, arith,
}
use db_controller.Api.Connection.{ConnectionInfo}

abbrev backslash : Char
backslash = "\\"

abbrev pub space : Char
space = " "

-- the characters that escapeValue marks: ' ', '\', ''', '`', '$' and '!'
unfoldable pub is_marked : Char → Bool
is_marked c =
    eqb (code c) 32
    || eqb (code c) 92
    || eqb (code c) 39
    || eqb (code c) 96
    || eqb (code c) 36
    || eqb (code c) 33

-- escapeValue
unfoldable pub escape_value : String → String
unfolding is_marked
escape_value [] = []
escape_value (c ∷ s) = if is_marked c then backslash ∷ c ∷ escape_value s else c ∷ escape_value s

-- PostgresConnectionString
unfoldable pub postgres_connection_string : ConnectionInfo → String
unfolding escape_value
postgres_connection_string c =
    "host="
    <> c.host
    <> " port="
    <> c.port
    <> " user="
    <> escape_value c.username
    <> " password="
    <> escape_value c.password
    <> " dbname="
    <> escape_value c.database_name
    <> " sslmode="
    <> c.ssl_mode

-- PostgresURI
unfoldable pub postgres_uri : (String → String) → ConnectionInfo → String
postgres_uri query_escape c =
    "postgres://"
    <> query_escape c.username
    <> ":"
    <> query_escape c.password
    <> "@"
    <> c.host
    <> ":"
    <> c.port
    <> "/"
    <> query_escape c.database_name
    <> "?sslmode="
    <> c.ssl_mode

-- strings.Replace(s, old, new, -1) for an `old` that is not empty; `skip` characters of a match
-- are still to be passed over
unfoldable pub replace_all : String → String → ℕ → String → String
replace_all old new skip [] = []
replace_all old new skip (c ∷ s) =
    let found = eqb skip 0 && starts_with (c ∷ s) old in
    let rest = replace_all old new (if found then count old - 1 else skip - 1) s in
    if found then new <> rest else if eqb skip 0 then c ∷ rest else rest
