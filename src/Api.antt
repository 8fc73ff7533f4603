-- ===== src/Api.antt =====
-- api/v1: the resources that the controllers reconcile, and the errors that they pass around.
pub mod Error
pub mod Connection
pub mod Claim
pub mod Condition
pub mod RoleClaim
