-- ===== src/Matching.antt =====
-- internal/match: how well a subtitle fits a media file.
pub mod Types
pub mod Coverage
pub mod Signals
pub mod Score
