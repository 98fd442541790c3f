-- ===== src/Rfc1813.antt =====
-- The NFS version 3 codec of src/goose_lang/examples/nfs_spec/symtest/rfc1813: the classes of types.py,
-- and the protPacker and protUnpacker methods of pack.py.
pub mod Const
pub mod Basic
pub mod Structs
pub mod Attributes
pub mod Sattr
pub mod Getattr
pub mod Setattr
pub mod Lookup
pub mod Read
pub mod Write
pub mod Create
pub mod Symlink
pub mod Mknod
pub mod Remove
pub mod Rename
pub mod Readdir
pub mod Fsinfo
pub mod Pathconf
pub mod Mount
pub mod Listing
pub mod Exports
pub mod Messages
pub mod Guards
mod Tests
