-- ===== src/Trip.antt =====
-- etl/domain/trip: the trip domain.
pub mod Normalizer
pub mod Model
pub mod Aggregate
pub mod Events
pub mod Validator
pub mod Deduplicator
pub mod Hashing
pub mod Service
