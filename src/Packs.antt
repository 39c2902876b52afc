-- ===== src/Packs.antt =====
-- internal/pack: what is taken out of a downloaded archive.
pub mod MovieVersions
