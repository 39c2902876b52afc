-- ===== src/Store.antt =====
-- internal/store: the tables of the database and the statements that change them.
pub mod Queue
pub mod Outbox
