-- ===== src/Store.antt =====
-- internal/store: the tables and the statements that run on them. A table is the list of its rows;
-- the clock of the database is the argument `now` of a statement.
pub mod Table
pub mod Keys
pub mod Leases
pub mod Instances
pub mod Adoptable
pub mod Accounts
pub mod Users
pub mod Transaction
pub mod Tenants
