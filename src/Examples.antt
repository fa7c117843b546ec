-- ===== src/Examples.antt =====
-- Concrete runs of the modelled code: the tests, and the theorems at concrete inputs.
mod Jobs
mod Values
mod Uploads
mod Scanning
mod Resuming
mod Auth
mod Groups
mod Locations
mod Walks
mod Producing
mod Resumable
mod Transfers
