-- ===== src/Pack.antt =====
-- include/sserialize/storage/pack_unpack_functions.h and src/storage/pack_unpack_functions.cpp:
-- integers as bytes, at fixed width and at variable length.
pub mod Buffer
pub mod Varint
pub mod Generic
pub mod Unpack
pub mod RoundTrip
pub mod Signed
pub mod Fixed
mod Examples
