-- ===== src/Cluster.antt =====
-- The API server of Kubernetes and the clock, as the controllers call them. They are no part of the
-- repository: `Cluster` holds one operation for each call, over a world `W`. A call that reads
-- leaves the world as it is. An update stores the object that it is given; the resource version
-- that the server adds is not modelled.
use db_controller.Prelude.{ℕ, String, Option, List, Map}
use db_controller.Api.Error.{Result}
use db_controller.Api.Claim.{DatabaseClaim}
use db_controller.Api.RoleClaim.{DbRoleClaim}
use db_controller.Exec.{Exec}
use db_controller.RequestInfo.{RequestInfo}

pub record Cluster (W : Type 0) : Type 0 where
  -- metav1.Now and time.Now
  pub now : W → ℕ
  -- a claim by its namespace and name; its update, and that of its status
  pub get_claim : String → String → W → Result DatabaseClaim
  pub update_claim : DatabaseClaim → Exec W (Unit {0})
  pub update_claim_status : DatabaseClaim → Exec W (Unit {0})
  -- the data of a secret by its namespace and name; none where the map is nil
  pub get_secret : String → String → W → Result (Option (Map String))
  -- and its resource version
  pub secret_version : String → String → W → Result String
  pub create_secret : String → String → Map String → Exec W (Unit {0})
  pub update_secret : String → String → Option (Map String) → Exec W (Unit {0})
  pub delete_secret : String → String → Exec W (Unit {0})
  -- role claims
  pub list_role_claims : String → W → Result (List DbRoleClaim)
  pub get_role_claim : String → String → W → Result DbRoleClaim
  pub create_role_claim : DbRoleClaim → Exec W (Unit {0})
  pub update_role_claim : DbRoleClaim → Exec W (Unit {0})
  pub update_role_claim_status : DbRoleClaim → Exec W (Unit {0})

-- What a handler works on: the claim and the request in memory, which it changes in place, and the
-- world.
pub record Context (W : Type 0) : Type 0 where
  pub claim : DatabaseClaim
  pub info : RequestInfo
  pub world : W

abbrev pub Handler : Type 0 → Type 0 → Type 0
Handler W A = Exec (Context W) A

module _ {W A : Type 0} where
  -- a call of the world
  abbrev pub call : Exec W A → Handler W A
  call m s = ((m s.world).0, record s { world = (m s.world).1 })

  -- a step that reads where it stands
  abbrev pub here : (Context W → Handler W A) → Handler W A
  here f s = f s s

abbrev pub reading : {W A : Type 0} → (Context W → Result A) → Handler W A
reading f s = (f s, s)
