-- ===== src/Sanity/Stats.antt =====
-- `Stats` and `update_common`. The members stand in groups, as the comments of the struct have them.
pub mod Groups
pub mod Step
pub mod Counting
pub mod Totals
