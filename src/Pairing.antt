-- ===== src/Pairing.antt =====
-- Pairing by PIN: the PIN itself, the two sides of the exchange, and their runs against each other.
pub mod Pin
pub mod Crypto
pub mod Server
pub mod Client
pub mod Run
pub mod Judging
