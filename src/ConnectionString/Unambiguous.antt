-- ===== src/ConnectionString/Unambiguous.antt =====
-- What escapeValue of pkg/dbclient/client.go keeps apart in a connection string.
use Prim.Native.Char.{Char, code}
use Prim.Native.String.{String, [], ◌∷◌}
use text.Mathlib.TextLemmas.{nil-append, cons-append, append_cancel_left}
use db_controller.Prelude.{
  Bool, true, false, eqb, ◌<>◌, Bool-cases, if◌then◌else◌, inl, inr, ◌≡◌, refl, sym, ap, ◌∙◌, arith,
}
use db_controller.Api.Connection.{ConnectionInfo}
use db_controller.ConnectionString.{escape_value, is_marked, postgres_connection_string, space}

-- The text up to the first space that no backslash stands before, without the marks, and the rest.
unmark : Bool → String → String × String
unmark escaped [] = ([], [])
unmark true (c ∷ s) = (c ∷ (unmark false s).0, (unmark false s).1)
unmark false (c ∷ s) =
    let marked = unmark true s in
    let plain = unmark false s in
    if eqb (code c) 92 then marked else if eqb (code c) 32 then ([], s) else (c ∷ plain.0, plain.1)

unmarked : (c : Char) → is_marked c ≡ false → (eqb (code c) 92 ≡ false) × (eqb (code c) 32 ≡ false)
unfolding is_marked
unmarked c h = (ground arith, ground arith)

unmark-escape_value :
    (v rest : String) → unmark false (escape_value v <> (space ∷ rest)) ≡ (v, rest)
unfolding unmark escape_value is_marked
unmark-escape_value [] rest = rw (nil-append (space ∷ rest)) refl
unmark-escape_value (c ∷ s) rest = elim (Bool-cases (is_marked c)) [
  | inl p ↦ rw p (
      rw (cons-append "\\" (c ∷ escape_value s) (space ∷ rest))
        (rw (cons-append c (escape_value s) (space ∷ rest)) (rw (unmark-escape_value s rest) refl)))
  | inr p ↦ rw p (
      rw (cons-append c (escape_value s) (space ∷ rest))
        (rw (unmarked c p).0 (rw (unmarked c p).1 (rw (unmark-escape_value s rest) refl))))
]

-- two escaped values, each with a space behind it
same_value :
    (u v r s : String)
    → (escape_value u <> (space ∷ r)) ≡ (escape_value v <> (space ∷ s))
    → (u ≡ v) × (r ≡ s)
same_value u v r s h =
    let e = sym (unmark-escape_value u r) ∙ ap (unmark false) h ∙ unmark-escape_value v s in
    (ap (λ p. p.0) e, ap (λ p. p.1) e)

-- two escaped values, each with the same next parameter behind it
same_field :
    (word u v r s : String)
    → (escape_value u <> ((space ∷ word) <> r)) ≡ (escape_value v <> ((space ∷ word) <> s))
    → (u ≡ v) × (r ≡ s)
same_field word u v r s h =
    let (a, b) = same_value u v (word <> r) (word <> s) (
      ap (λ t. escape_value u <> t) (sym (cons-append space word r))
      ∙ h
      ∙ ap (λ t. escape_value v <> t) (cons-append space word s)) in
    (a, append_cancel_left word r s b)

abbrev from_database : ConnectionInfo → String
from_database c = escape_value c.database_name <> " sslmode=" <> c.ssl_mode

abbrev from_password : ConnectionInfo → String
from_password c = escape_value c.password <> " dbname=" <> from_database c

abbrev from_user : ConnectionInfo → String
from_user c = escape_value c.username <> " password=" <> from_password c

abbrev from_host : String → String → String → String
from_host host port rest = "host=" <> host <> " port=" <> port <> " user=" <> rest

-- Two connections to the same host and port with the same connection string have the same user, the
-- same password, the same database and the same mode of SSL, whatever characters these have.
pub connection_string-Unambiguous :
    (c d : ConnectionInfo)
    → c.host ≡ d.host
    → c.port ≡ d.port
    → postgres_connection_string c ≡ postgres_connection_string d
    → (c.username ≡ d.username)
      × (c.password ≡ d.password)
      × (c.database_name ≡ d.database_name)
      × (c.ssl_mode ≡ d.ssl_mode)
unfolding postgres_connection_string
connection_string-Unambiguous c d h p e =
    let same : from_host c.host c.port (from_user c) ≡ from_host c.host c.port (from_user d) =
      e
      ∙ ap (λ x. from_host x d.port (from_user d)) (sym h)
      ∙ ap (λ x. from_host c.host x (from_user d)) (sym p) in
    let users = append_cancel_left " user=" (from_user c) (from_user d) (
      append_cancel_left c.port _ _ (
        append_cancel_left " port=" _ _
          (append_cancel_left c.host _ _ (append_cancel_left "host=" _ _ same)))) in
    let (user, passwords) =
      same_field "password=" c.username d.username (from_password c) (from_password d) users in
    let (password, databases) =
      same_field "dbname=" c.password d.password (from_database c) (from_database d) passwords in
    let (database, mode) =
      same_field "sslmode=" c.database_name d.database_name c.ssl_mode d.ssl_mode databases in
    (user, password, database, mode)
