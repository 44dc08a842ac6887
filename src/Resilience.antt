-- ===== src/Resilience.antt =====
-- pkg/resilience: the spool for records that could not be written, and retries with a growing delay.
mod Spool
mod Retry
mod Attempts
mod Tests
