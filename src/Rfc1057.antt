-- ===== src/Rfc1057.antt =====
-- The ONC RPC and port mapper codec of src/goose_lang/examples/nfs_spec/symtest/rfc1813: the classes of types.py,
-- and the protPacker and protUnpacker methods of pack.py.
pub mod Const
pub mod Basic
pub mod Message
pub mod Messages
mod Tests
pub mod Portmap
pub mod Pmaplist
