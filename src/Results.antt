-- ===== src/Results.antt =====
-- harness/short_result_validator.py and harness/result_reducer.py: the results that workers and
-- verifiers publish, and their reduction to one verdict.
pub mod Validate
pub mod Reduce
pub mod Passing
pub mod Reduction
pub mod Packet
pub mod Bounded
pub mod Tests
