-- ===== src/Amounts.antt =====
-- JavaScript's numbers, where a service computes with fractions: their type `V` is a parameter, and
-- so is what the services compute with them.
mod Laws
pub use Laws.*
