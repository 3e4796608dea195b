-- ===== src/Minimal.antt =====
-- minimal-scheduler-main/minimal-scheduler-main: seven small sched_ext schedulers, each a module of its
-- own, and what they guarantee. SHARED_DSQ_ID is 0 in all of them.
pub mod Conservation
pub mod Task
pub mod Fifo
pub mod SchedExt
pub mod Fcfs
pub mod Prio
pub mod Lottery
pub mod LotteryPrio
pub mod Vtime
pub mod Order
pub mod Draw
pub mod Drawing
pub mod Priority
pub mod Sorted
pub mod Heaviest
pub mod VirtualTime
pub mod Earliest
