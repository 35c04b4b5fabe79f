-- ===== src/Utils.antt =====
-- utils: the generator of pipe ids, and the timer.
pub mod Id
pub mod Time
