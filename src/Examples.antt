-- ===== src/Examples.antt =====
-- Sample data, and theorems at concrete inputs.
mod Data
mod Scheduling
mod Requests
mod Queues
mod Workers
mod Rules
mod Runs
mod Polling
mod Tasks
mod Histories
mod Races
mod Endpoints
mod Edges
mod Handlers
mod Flows
mod Desk
mod Fleets
