-- ===== src/Twisted.antt =====
-- gnutls/interfaces/twisted/__init__.py.
pub mod Recurrent
pub mod Mixin
pub mod Transport
