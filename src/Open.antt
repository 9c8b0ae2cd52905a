-- ===== src/Open.antt =====
-- my-src/Chapter-17: the open server, its client, and the passing of descriptors between them.
pub mod Passing
pub mod Clients
pub mod Request
pub mod Connect
pub mod Server
pub mod First
pub mod Main
pub mod Csopen
