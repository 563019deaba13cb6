-- ===== src/Tools.antt =====
-- The two command-line tools of the V2X library: chan (directory chan) and addr (addr/addr.c).
pub mod Addr
pub mod Chan
pub mod Library
