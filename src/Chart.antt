-- ===== src/Chart.antt =====
-- The latency chart: frontend/src/features/monitors/history/chart-geometry.ts. Its floating-point
-- numbers are exact quotients here: rounding, underflow and overflow are not represented. A latency
-- is counted in a unit that is a power of ten of a millisecond, the millisecond itself where no
-- latency has a fraction, and the values of the vertical axis in tenths of that unit. The labels
-- call `Intl`.
pub mod Points
pub mod Axis
pub mod Drawing
pub mod Geometry
pub mod Ordered
pub mod Ticks
pub mod Lines
pub mod Starts
pub mod Segments
pub mod Inside
mod Tests
