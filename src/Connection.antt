-- ===== src/Connection.antt =====
-- gnutls/connection.py, a module for each class or group of methods.
pub mod ServerNames
pub mod Credentials
pub mod Session
pub mod Context
pub mod Opening
