-- ===== src/Services/Leases.antt =====
-- internal/application/lease: the services that change leases.
pub mod Errors
pub mod Deposit
pub mod Books
pub mod Accepted
pub mod Settled
pub mod Terminate
pub mod Create
pub mod Rent
pub mod Force
pub mod Replace
