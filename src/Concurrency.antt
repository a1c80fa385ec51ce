-- ===== src/Concurrency.antt =====
-- The task queue and the pool, src/concurrency and include/concurrency.
pub mod TaskQueue
pub mod ThreadPool
