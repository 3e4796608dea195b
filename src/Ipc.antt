-- ===== src/Ipc.antt =====
-- daemon/ipc/ipc_interface.cpp: the four connections of the daemon to the kernel, a module for each
-- class. An int is its 32-bit pattern, so -1 is 0xFFFFFFFF; a handle is present or NULL. The path
-- arguments of the connect methods are not read.
pub mod Libbpf
pub mod Reader
pub mod Writer
pub mod Settings
pub mod Monitor
pub mod Stubs
