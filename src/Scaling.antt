-- ===== src/Scaling.antt =====
-- wci/workflow/scaling_algorithm: the algorithms that decide when to start workers.
pub mod Registry
pub mod NoSync
pub mod RateBased
pub mod Program
