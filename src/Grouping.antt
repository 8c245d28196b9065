-- ===== src/Grouping.antt =====
-- src/grouping: from the list of files to groups of duplicates.
pub mod Buffer
pub mod Runs
pub mod Regroup
pub mod Size
pub mod Hash
