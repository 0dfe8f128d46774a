-- ===== src/Auth.antt =====
-- internal/auth: the pairing key, its check digit, and the manager that holds sessions and lockouts.
pub mod Luhn
pub mod Key
pub mod Addr
pub mod Policy
pub mod Table
pub mod Pin
pub mod Manager
pub mod Methods
mod Examples
