-- ===== src/Tests.antt =====
-- Concrete states of the daemon, and the results at them.
mod Journeys
mod Lists
mod Queues
mod Reports
mod Requests
mod Routes
mod Rows
mod Nodes
mod Rounds
mod Starts
mod Stations
mod Tools
