-- ===== src/Store.antt =====
-- The PostgreSQL database that the gateway's processes share: its tables, errors and transactions
-- (internal/store, migrations).
pub mod Tables
pub mod Tx
pub mod Ids
pub mod Cursor
pub mod Migrate
