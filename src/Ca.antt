-- ===== src/Ca.antt =====
-- xpki/authority and xpki/csr: the certification authority, from its configuration to the template of
-- a certificate that it signs.
pub mod Std
pub mod Csr
pub mod Profile
pub mod Config
pub mod Authority
pub mod Sign
pub mod Issued
pub mod Examples
