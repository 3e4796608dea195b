-- ===== src/AiSched.antt =====
-- kernel/ai_sched.bpf.c: the AI-aware scheduler. Policy holds the helper functions, Hooks the maps
-- and the struct_ops hooks; the other modules prove what these do.
pub mod Dsq
pub mod Task
pub mod Policy
pub mod Hooks
pub mod Routing
pub mod Enqueue
pub mod Dispatch
pub mod Counting
pub mod Conservation
pub mod Cores
pub mod Abstract
pub mod Draining
pub mod Starvation
