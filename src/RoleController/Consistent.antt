-- ===== src/RoleController/Consistent.antt =====
-- The secret that copySourceSecret of pkg/roleclaim/roleclaim.go writes: its connection strings are
-- those of its own fields.
use db_controller.Prelude.{
  String, false, none, some, Map, ◌≡◌, refl, ap, sym, subst, ◌∙◌, ◌==◌, inl, inr, Bool-cases,
  lookup, insert, lookup-insert, if◌then◌else◌,
}
use db_controller.Api.Claim.{dsn_key, dsn_uri_key, replica_dsn_uri_key}
use db_controller.Api.Error.{Result, ok, err, panic, is_not_found}
use db_controller.Api.RoleClaim.{DbRoleClaim}
use db_controller.Cluster.{Cluster}
use db_controller.ConnectionString.{postgres_connection_string, postgres_uri, replace_all}
use db_controller.Exec.{continue, fail, rescue}
use db_controller.RoleController.Secret.{
  copy_source_secret, has_key, is_complete, renew_dsns, role_data, source_connection,
}
use db_controller.Secrets.{Data, data_at, entries}
use db_controller.Secrets.Stored.{SecretStore}

-- The strings of a secret agree with its fields.
pub Agrees : (String → String) → Data → Type 0
Agrees query_escape d =
    (data_at dsn_key d ≡ postgres_connection_string (source_connection d))
    × (data_at dsn_uri_key d ≡ postgres_uri query_escape (source_connection d))

-- A key that is none of a connection's fields.
abbrev IsOther : String → Type 0
IsOther k =
    ((k == "hostname") ≡ false)
    × ((k == "port") ≡ false)
    × ((k == "database") ≡ false)
    × ((k == "username") ≡ false)
    × ((k == "password") ≡ false)
    × ((k == "sslmode") ≡ false)

connection-insert :
    (k v : String) (m : Map String)
    → IsOther k
    → source_connection (some (insert k v m)) ≡ source_connection (some m)
connection-insert k v m (a, b, c, d, e, f) = rw (lookup-insert k "hostname" v m) (
    rw (lookup-insert k "port" v m) (
      rw (lookup-insert k "database" v m) (
        rw (lookup-insert k "username" v m) (
          rw (lookup-insert k "password" v m)
            (rw (lookup-insert k "sslmode" v m) (rw a (rw b (rw c (rw d (rw e (rw f refl)))))))))))

abbrev value : Result Data → Data
value (ok d) = d
value _ = none

abbrev pub fields : Data → String × String
fields d = (data_at "username" d, data_at "password" d)

module _ (query_escape : String → String) where
  -- What a secret is behind the renewal of its strings: they agree, and the fields are the same.
  abbrev Renewed : Data → Data → Type 0
  Renewed old d = Agrees query_escape d × (fields d ≡ fields old)

  replica-Renewed :
      (x : String) (m : Map String)
      → Agrees query_escape (some m)
      → Renewed (some m) (some (insert replica_dsn_uri_key x m))
  unfolding Agrees
  replica-Renewed x m (a, b) =
      let same = connection-insert replica_dsn_uri_key x m (refl, refl, refl, refl, refl, refl) in
      (
        (
          rw (lookup-insert replica_dsn_uri_key dsn_key x m)
              (a ∙ sym (ap postgres_connection_string same)),
          rw (lookup-insert replica_dsn_uri_key dsn_uri_key x m)
              (b ∙ sym (ap (postgres_uri query_escape) same)),
        ),
        ap (λ c. (c.username, c.password)) same,
      )

  -- the two strings, behind the fields
  abbrev renewed : Map String → Map String
  renewed m =
      insert dsn_uri_key (postgres_uri query_escape (source_connection (some m)))
        (insert dsn_key (postgres_connection_string (source_connection (some m))) m)

  renewed-Renewed : (m : Map String) → Renewed (some m) (some (renewed m))
  unfolding Agrees
  renewed-Renewed m =
      let c = source_connection (some m) in
      let first =
        connection-insert dsn_key (postgres_connection_string c) m
          (refl, refl, refl, refl, refl, refl) in
      let same =
        connection-insert dsn_uri_key (postgres_uri query_escape c)
          (insert dsn_key (postgres_connection_string c) m) (refl, refl, refl, refl, refl, refl)
        ∙ first in
      (
        (
          rw
              (lookup-insert dsn_uri_key dsn_key (postgres_uri query_escape c)
                (insert dsn_key (postgres_connection_string c) m))
              (rw (lookup-insert dsn_key dsn_key (postgres_connection_string c) m)
                (sym (ap postgres_connection_string same))),
          rw
              (lookup-insert dsn_uri_key dsn_uri_key (postgres_uri query_escape c)
                (insert dsn_key (postgres_connection_string c) m))
              (sym (ap (postgres_uri query_escape) same)),
        ),
        ap (λ k. (k.username, k.password)) same,
      )

  renew_dsns-Renewed :
      (m : Map String) (d : Data) → renew_dsns query_escape (some m) ≡ ok d → Renewed (some m) d
  unfolding renew_dsns
  renew_dsns-Renewed m d h =
      let x =
        replace_all ".cluster-" ".cluster-ro-" 0
          (postgres_uri query_escape (source_connection (some m))) in
      let base = renewed-Renewed m in
      elim (Bool-cases (has_key replica_dsn_uri_key (some (renewed m)))) [
        | inl p ↦
            let e = rw p at h in
            let more = replica-Renewed x (renewed m) base.0 in
            subst (Renewed (some m)) (ap value e) (more.0, more.1 ∙ base.1)
        | inr p ↦ let e = rw p at h in subst (Renewed (some m)) (ap value e) base
      ]

  -- the data of a secret for a user
  abbrev pub ForUser : String → String → Data → Type 0
  ForUser user password d = Agrees query_escape d × (fields d ≡ (user, password))

  named :
      (user password : String) (m : Map String)
      → fields (some (insert "password" password (insert "username" user m))) ≡ (user, password)
  named user password m =
      rw (lookup-insert "password" "username" password (insert "username" user m)) (
        rw (lookup-insert "username" "username" user m)
          (rw (lookup-insert "password" "password" password (insert "username" user m)) refl))

  role_data-ForUser :
      (user password : String) (source d : Data)
      → (user == "") ≡ false
      → (password == "") ≡ false
      → role_data query_escape user password source ≡ ok d
      → ForUser user password d
  unfolding role_data
  role_data-ForUser user password none d u v h = (let e = rw u at h in cc)
  role_data-ForUser user password (some m) d u v h =
      let filled = insert "password" password (insert "username" user m) in
      let e = rw v at (rw u at h) in
      elim (Bool-cases (is_complete (some filled))) [
        | inl p ↦
            let (a, f) = renew_dsns-Renewed filled d (rw p at e) in (a, f ∙ named user password m)
        | inr p ↦ (let x = rw p at e in cc)
      ]

  module _ {W : Type 0} (cluster : Cluster W) (store : SecretStore cluster) where
    module _ (source : Data) (claim : DbRoleClaim) (user password : String) (w : W)
        (u : (user == "") ≡ false) (v : (password == "") ≡ false) where
      -- a secret of the claim, for the user
      abbrev Written : W → Type 0
      Written w' =
          (d : Data) × (cluster.get_secret claim.namespace claim.spec.secret_name w' ≡ ok d)
          × ForUser user password d

      -- the last call of copySourceSecret, by what the `Get` before it found
      abbrev write : Result Data → Data → W → Result (Unit {0}) × W
      write found d w' =
          rescue found w'
            (λ e.
              if is_not_found e
              then cluster.create_secret claim.namespace claim.spec.secret_name (entries d)
              else fail e)
            (λ _. cluster.update_secret claim.namespace claim.spec.secret_name d)

      nonempty : ForUser user password none → ⊥
      unfolding lookup
      nonempty (a, f) = let x = subst (λ t. (t == "") ≡ false) (sym (ap (λ p. p.0) f)) u in cc

      write-Written :
          (found : Result Data) (d : Data)
          → ForUser user password d
          → (write found d w).0 ≡ ok tt
          → Written (write found d w).1
      write-Written (ok _) d f h =
          (d, store.updated claim.namespace claim.spec.secret_name d w h, f)
      write-Written (err x) none f h = absurd (nonempty f)
      write-Written (err x) (some m) f h = elim (Bool-cases (is_not_found x)) [
        | inl p ↦
            rw p (
              some m,
              store.created claim.namespace claim.spec.secret_name (some m) w (rw p at h),
              f,
            )
        | inr p ↦ (let y = rw p at h in cc)
      ]
      write-Written panic d f h = cc

      written :
          (made : Result Data)
          → role_data query_escape user password source ≡ made
          → let done =
              continue made w (λ d w'.
                write (cluster.get_secret claim.namespace claim.spec.secret_name w') d w') in
            done.0 ≡ ok tt → Written done.1
      written (ok d) e h =
          write-Written (cluster.get_secret claim.namespace claim.spec.secret_name w) d
            (role_data-ForUser user password source d u v e) h
      written (err x) e h = cc
      written panic e h = cc

    -- When the secret of a role claim is written without an error for a user and a password, it is
    -- read back with that user and that password, and its two connection strings are those of its
    -- fields.
    pub copy_source_secret-ForUser :
        (source : Data) (claim : DbRoleClaim) (user password : String) (w : W)
        → (user == "") ≡ false
        → (password == "") ≡ false
        → (copy_source_secret cluster query_escape source claim user password w).0 ≡ ok tt
        → (d : Data) × (cluster.get_secret claim.namespace claim.spec.secret_name
              (copy_source_secret cluster query_escape source claim user password w).1
            ≡ ok d)
          × ForUser user password d
    unfolding copy_source_secret
    copy_source_secret-ForUser source claim user password w u v h =
        written source claim user password w u v (role_data query_escape user password source) refl
          h
