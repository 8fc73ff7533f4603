-- ===== src/Examples.antt =====
-- Concrete inputs for the theorems: calls that can be run, and a claim.
mod Fixtures
mod Pure
mod Effects
mod Server
mod Controller
mod Roles
mod Dbproxy
mod Tools
mod Pods
mod Clouds
