-- ===== src/Pipeline.antt =====
-- internal/cdc/pipeline: the state machine, backpressure, retries and the run loop of a pipeline.
mod Tests
pub mod State
pub mod Backpressure
pub mod Retry
pub mod Run
