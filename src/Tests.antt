-- ===== src/Tests.antt =====
-- Runs of the model on concrete values, and the theorems applied to them.
mod Setup
mod Publishing
mod Trips
mod Journeys
mod Concurrent
mod Publishers
mod Outbox
mod Requests
mod Settings
mod Process
mod Json
mod Deployed
mod Cluster
