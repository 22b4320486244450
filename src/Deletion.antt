-- ===== src/Deletion.antt =====
-- datastore/sql/operations/dml/deleteEntityById.ts and deleteAllEntities.ts, with the local
-- transaction that the operations on a SQL data store are wrapped in.
pub mod Brackets
pub mod Statements
pub mod Committed
pub mod ById
pub mod AllEntities
pub mod Tests
