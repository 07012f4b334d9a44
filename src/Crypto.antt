-- ===== src/Crypto.antt =====
-- gnutls/crypto.py, a module for each class or group of classes.
pub mod Name
pub mod Certificate
pub mod AltNames
pub mod Crl
pub mod Keys
pub mod Aead
pub mod Datum
pub mod Pkcs7
pub mod Raw
pub mod Signing
