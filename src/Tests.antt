-- ===== src/Tests.antt =====
-- Runs on small inputs.
mod Validators
mod Rounds
mod Expansion
mod Requests
mod Filtering
mod Access
mod Projects
mod Migrations
mod Triggers
mod Reviews
