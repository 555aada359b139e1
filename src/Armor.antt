-- ===== src/Armor.antt =====
-- xpki/armor/armor.go: decoding of OpenPGP's ASCII armor, over lists of byte values. The log is not
-- modelled. `none` of a function with fuel is that the fuel ran out.
pub mod Base64
pub mod Crc
pub mod Decoder
pub mod Shorter
pub mod Decoded
pub mod Examples
