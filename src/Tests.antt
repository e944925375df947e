-- ===== src/Tests.antt =====
-- Runs of the code at concrete states, and the theorems at work there.
mod Requests
mod Https
mod Ring
mod Batches
mod Sessions
mod Arrivals
mod Reports
mod Messages
mod Uris
mod Answers
mod Timers
mod Accounts
mod Connections
mod Selectors
