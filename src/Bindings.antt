-- ===== src/Bindings.antt =====
-- gnutls/library/functions.py as data: what is declared of each C function.
pub mod Entry
pub mod AlertGet
pub mod CertificateTypeList
pub mod KxGetId
pub mod PrivkeySignData
pub mod SessionEnableCompatibility
pub mod X509CrqImport
pub mod X509CrtGet
pub mod X509DnImport
pub mod AeadCipherDecrypt
pub mod CertificateSetOpenpgp
pub mod OpenpgpCrtInit
pub mod OpenpgpSetRecv
pub mod SrpAllocateClient
pub mod Table
pub mod Symbols
pub mod Relied
