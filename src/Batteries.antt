-- ===== src/Batteries.antt =====
-- apps/api/src/modules/batteries: models, items and the review of conditional data points.
pub mod Review
pub mod Handlers
