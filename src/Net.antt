-- ===== src/Net.antt =====
-- BalletMini/inet.c: the socket over which a page is asked for and read.
pub mod State
pub mod Send
pub mod Receive
pub mod Connect
pub mod Request
pub mod Machine
pub mod Examples
