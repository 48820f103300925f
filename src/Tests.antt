-- ===== src/Tests.antt =====
-- Runs and instances: a memory platform that meets the contract, and the theorems at its data.
pub mod Memory
pub mod Server
mod Account
mod Posting
mod Balance
mod Auth
mod Achievement
mod Listing
mod Handler
mod Clients
mod Gateway
mod Web
mod Success
mod Signup
mod Conflict
mod Fresh
mod Nonce
mod Process
mod Delivery
