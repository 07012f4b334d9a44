-- ===== src/Constants.antt =====
-- gnutls/library/constants.py, the numbers of the C headers, and gnutls/constants.py.
pub mod Alert
pub mod Code
pub mod Entry
pub mod Algorithms
pub mod ErrorCodes
pub mod Handshakes
pub mod Parameters
pub mod Table
pub mod Named
