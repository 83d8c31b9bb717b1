-- ===== src/Sched/Refine.antt =====
-- Each operation of the scheduler does to the represented queue what the queue's own does.
mod Insert
mod Leave
mod Tick
pub use Insert.*
pub use Leave.*
pub use Tick.*
