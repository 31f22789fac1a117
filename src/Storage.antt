-- ===== src/Storage.antt =====
-- src/storage/UByteArrayAdapter.cpp over the storage of
-- src/storage/UByteArrayAdapterPrivates/UByteArrayAdapterPrivateVector.cpp: windows on a byte array,
-- with a get and a put pointer.
pub mod Adapter
pub mod Stream
mod Examples
