-- ===== src/Process.antt =====
-- src/userprog/process.c: the start of user processes.
pub mod Args
pub mod Load
pub mod Children
