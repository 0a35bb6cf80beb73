-- ===== src/Rows.antt =====
-- Laws of the tables: rows with a primary key, rows that belong to a tenant, and tables compared.
mod Keyed
mod Tenants
mod Related
pub use Keyed.*
pub use Tenants.*
pub use Related.*
