-- ===== src/Tests.antt =====
-- Concrete databases and runs for the theorems of the other modules.
mod Data
mod Viewings
mod Leads
mod Listings
mod Auth
mod Common
mod Search
mod Shelves
mod Photos
mod Agencies
mod Notifications
mod Ingestion
mod Guardrails
mod Retrieval
