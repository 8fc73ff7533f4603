-- ===== src/Aws/Reported.antt =====
-- When managePostgresDBInstanceAWS of pkg/databaseclaim/awsprovider.go reports an instance as ready.
use db_controller.Prelude.{
  ℕ, String, Bool, true, false, ◌&&◌, Option, none, some, List, [], ◌∷◌, ◌==◌, if◌then◌else◌, ◌≡◌,
  ◌≢◌, ◌⊎◌, refl, arith, inl, inr,
}
use db_controller.Api.Error.{Result, ok, err, panic}
use db_controller.Cluster.{Context, Handler, call, here}
use db_controller.Exec.Chain.{chain-ok}
use db_controller.Exec.{lift, ◌>>=◌, ◌>>◌}
use db_controller.Mode.{ModeEnum}
use db_controller.Reconciler.{Reconciler}
use db_controller.Aws.{
  Instance, Crossplane, ResourceCondition, get_service_namespace, set_backup_policy,
}
use db_controller.Aws.Instances.{
  create_postgres_instance, manage_postgres_db_instance_aws, new_postgres_instance, or_create,
  unless_deleted,
}
use db_controller.Aws.ParamGroups.{manage_postgres_param_group}
use db_controller.Aws.Ready.{is_resource_ready, named, reconcile_error, resource_readiness}
use db_controller.Aws.Updates.{update_db_instance}

-- The conditions of a resource that is ready: the one that says so, and before it none that is an
-- error of the resource's controller.
pub data IsReady : List ResourceCondition → Type 0 where
  first :
      {c : ResourceCondition} {cs : List ResourceCondition}
      → (c.type == "Ready") ≡ true
      → (c.status == "True") ≡ true
      → IsReady (c ∷ cs)
  later :
      {c : ResourceCondition} {cs : List ResourceCondition}
      → (c.reason == "ReconcileError") ≡ false
      → IsReady cs
      → IsReady (c ∷ cs)

error-ne : (c : ResourceCondition) → reconcile_error c ≢ ok true
unfolding reconcile_error
error-ne c h = ground (arith, h)

ready_cases :
    (a b e : Bool) (error rest : Result Bool)
    → (if a && b then ok true else if e then error else rest) ≡ ok true
    → error ≢ ok true
    → ((a ≡ true) × (b ≡ true)) ⊎ ((e ≡ false) × (rest ≡ ok true))
ready_cases true true e error rest h n = inl (refl, refl)
ready_cases true false true error rest h n = absurd (n h)
ready_cases true false false error rest h n = inr (refl, h)
ready_cases false b true error rest h n = absurd (n h)
ready_cases false b false error rest h n = inr (refl, h)

is_resource_ready-IsReady :
    (cs : List ResourceCondition) → is_resource_ready cs ≡ ok true → IsReady cs
unfolding is_resource_ready
is_resource_ready-IsReady [] h = cc
is_resource_ready-IsReady (c ∷ cs) h =
    elim (ready_cases (c.type == "Ready") (c.status == "True") (c.reason == "ReconcileError")
      (reconcile_error c) (is_resource_ready cs) h (error-ne c)) [
        | inl (p, q) ↦ first p q
        | inr (p, q) ↦ later p (is_resource_ready-IsReady cs q)
      ]

named-ok : (text : String) (answer : Result Bool) → named text answer ≡ ok true → answer ≡ ok true
named-ok text (ok b) h = h
named-ok text (err e) h = cc
named-ok text panic h = cc

readiness-IsReady :
    (typ name : String) (cs : List ResourceCondition)
    → resource_readiness typ name cs ≡ ok true
    → IsReady cs
unfolding resource_readiness
readiness-IsReady typ name cs h = is_resource_ready-IsReady cs (named-ok _ (is_resource_ready cs) h)

unless_deleted-ok :
    {W : Type 0} (kind name : String) (t : Option ℕ) (next : Handler W Bool) (s : Context W)
    {b : Bool}
    → (unless_deleted kind name t next s).0 ≡ ok b
    → (t ≡ none) × ((next s).0 ≡ ok b)
unless_deleted-ok kind name (some t) next s h = cc
unless_deleted-ok kind name none next s h = (refl, h)

or_create-ok :
    {W R : Type 0} (create : Handler W R) (found : Result R) (s : Context W) {i : R}
    → (or_create create found s).0 ≡ ok i
    → (found ≡ ok i) ⊎ ((create s).0 ≡ ok i)
or_create-ok create (ok a) s h = inl h
or_create-ok create (err e) s h = ground (arith, h)
or_create-ok create panic s h = cc

IsReady-ne : {cs : List ResourceCondition} → IsReady cs → cs ≢ []
IsReady-ne (first p q) e = cc
IsReady-ne (later p q) e = cc

module _ {W : Type 0} (r : Reconciler W) (x : Crossplane W) where
  created_bare :
      (mode : ModeEnum) (name namespace group : String) (s : Context W) {i : Instance}
      → (create_postgres_instance r x mode name namespace group s).0 ≡ ok i
      → i.conditions ≡ []
  unfolding create_postgres_instance new_postgres_instance
  created_bare mode name namespace group s h = grind (arith, h)

  found-ok :
      (mode : ModeEnum) (name namespace group : String) (s : Context W) {i : Instance}
      → ((set_backup_policy r
            >> here (λ t.
              or_create
                (create_postgres_instance r x mode name namespace group)
                (x.get_instance name t.world)))
          s).0
        ≡ ok i
      → IsReady i.conditions
      → x.get_instance name s.world ≡ ok i
  unfolding set_backup_policy
  found-ok mode name namespace group s {i} h ready =
      let create = create_postgres_instance r x mode name namespace group in
      elim (or_create-ok create (x.get_instance name s.world) _ h) [
        | inl p ↦ p
        | inr p ↦ absurd (IsReady-ne ready (created_bare mode name namespace group _ p))
      ]

  -- An instance that is reported as ready was there before, is not being deleted, and has the
  -- condition Ready, with no error of its controller before that.
  pub manage_postgres_db_instance_aws-IsReady :
      (name : String) (mode : ModeEnum) (s : Context W)
      → (manage_postgres_db_instance_aws r x name mode s).0 ≡ ok true
      → let w = (manage_postgres_param_group r x s.info s.claim s.world).1 in
        (i : Instance) × (x.get_instance name w ≡ ok i)
        × (i.deletion_timestamp ≡ none)
        × IsReady i.conditions
  unfolding manage_postgres_db_instance_aws
  manage_postgres_db_instance_aws-IsReady name mode s h =
      let group : Handler W String =
        here (λ t. call (manage_postgres_param_group r x t.info t.claim)) in
      let ready : Instance → Handler W Bool =
        λ i. lift (resource_readiness "rds.instance" name i.conditions) in
      let settle : Instance → Handler W Bool = λ i. update_db_instance r x i >> ready i in
      let finish : Instance → Handler W Bool =
        λ i. unless_deleted "instance" name i.deletion_timestamp (settle i) in
      let find : String → String → Handler W Instance = λ namespace g.
        set_backup_policy r
        >> here (λ t.
          or_create (create_postgres_instance r x mode name namespace g)
            (x.get_instance name t.world)) in
      let named : Handler W String = lift (get_service_namespace r) in
      let (namespace, _, h1, _) =
        chain-ok named (λ namespace. group >>= λ g. find namespace g >>= finish) s h in
      let (g, _, h2, _) = chain-ok group (λ g. find namespace g >>= finish) s h1 in
      let (i, found, h3, _) = chain-ok (find namespace g) finish (group s).1 h2 in
      let s2 = (find namespace g (group s).1).1 in
      let (live, h4) = unless_deleted-ok "instance" name i.deletion_timestamp (settle i) s2 h3 in
      let (_, _, h5, _) = chain-ok (update_db_instance r x i) (λ _. ready i) s2 h4 in
      let is_ready = readiness-IsReady "rds.instance" name i.conditions h5 in
      (i, found-ok mode name namespace g (group s).1 found is_ready, live, is_ready)
