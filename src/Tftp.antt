-- ===== src/Tftp.antt =====
-- The TFTP server tenant lib/f_core/net/application/c_tftp_server_tenant.cpp, and the files that it reads
-- through lib/f_core/os/c_file.cpp.
pub mod File
pub mod Ack
pub mod Server
mod Waits
mod Parts
mod Client
mod Rounds
mod Delivery
mod Requests
mod Failures
mod Tests
