-- ===== src/Workflow.antt =====
-- internal/workflow: what a search does with the subtitles that it finds.
pub mod RemovalBudget
pub mod Upgrade
pub mod Routes
pub mod Numbering
