-- ===== src/Bpf.antt =====
-- What the kernel offers to a BPF program: maps and ring buffers (bpf_helpers.h) and the dispatch
-- queues of sched_ext (kernel/scx/common.bpf.h declares these). None of it is code of the
-- repository, so each is a record of operations with the documented behaviour as laws.
pub mod Maps
pub mod Scx
pub mod Smp
pub mod Elements
