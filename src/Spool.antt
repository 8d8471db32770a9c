-- ===== src/Spool.antt =====
-- custom_components/hass_questdb_writer/spool.py: the durable queue.
pub mod Types
pub mod Errors
pub mod Table
pub mod Transaction
pub mod Enqueue
pub mod Peek
pub mod Deliver
pub mod DeadLetters
pub mod Invariant
pub mod Open
pub mod Survival
pub mod Tests
