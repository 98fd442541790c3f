-- ===== src/Programs.antt =====
-- The RPC programs of client.py and server.py: what their client and server classes share is in Stub.
pub mod Nfs
pub mod Mount
pub mod Pmap
