-- ===== src/Leads.antt =====
-- backend/app/leads: service.py over repository.py, the profile check of
-- backend/app/users/service.py, and the classification callback of leads/router.py.
pub mod Inquiries
pub mod Reviews
pub mod Callbacks
pub mod Requests
pub mod Effects
pub mod Classified
pub mod Idempotence
pub mod Change
pub mod Progress
pub mod SoundLead
pub mod Soundness
pub mod Isolation
pub mod Admission
pub mod Worker
pub mod FailOpen
