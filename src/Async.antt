-- ===== src/Async.antt =====
-- code/src/turbine/async_exec.c: the generic async executor.
pub mod Get
pub mod Check
pub mod Loop
pub mod Registry
mod Tests
