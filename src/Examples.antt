-- ===== src/Examples.antt =====
-- A small database, and the theorems of the other modules at concrete inputs of it.
mod Sample
mod Waitlist
mod Registrations
mod Arrangements
mod Lifecycle
mod System
mod Success
mod Requests
mod Report
mod Venues
