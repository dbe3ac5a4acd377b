-- ===== src/Tracking.antt =====
-- packages/domain-core/src: capture and edit of progress data points, the consistency window, and the
-- life of a goal.
pub mod Types
pub mod Order
pub mod Consistency
pub mod DataPoint
pub mod Label
pub mod Baseline
pub mod BaselineEdit
pub mod Lifecycle
