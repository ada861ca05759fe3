-- ===== src/System.antt =====
-- The client and the server together: a call of rpmem.c whose request a handler of rpmem_server.c
-- serves.
pub mod Commands
pub mod Mapping
pub mod Opening
mod Tests
