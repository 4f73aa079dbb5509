-- ===== src/Sync.antt =====
-- cs426-fall24/lab0: the queue and the semaphore.
pub mod Queue
pub mod Semaphore
