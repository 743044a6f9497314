-- ===== src/Tests.antt =====
-- Concrete runs of the model, and each theorem at an input that meets its conditions.
mod Fixtures
mod Domain
mod Storage
mod Conversation
mod Races
mod Interleaving
mod Transactions
mod Processes
mod Tables
mod Requests
mod Migrations
