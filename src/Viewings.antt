-- ===== src/Viewings.antt =====
-- backend/app/viewings: service.py over repository.py. A method is an action on the database that
-- takes the service's tenant context, the current time and the id of the row that it inserts.
pub mod Slots
pub mod Bookings
pub mod Requests
pub mod Effects
pub mod BookingEffects
pub mod StatusEffects
pub mod Change
pub mod Seats
pub mod Capacity
pub mod History
pub mod Isolation
