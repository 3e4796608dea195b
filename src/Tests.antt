-- ===== src/Tests.antt =====
-- Tests of the definitions on concrete inputs, and the theorems at concrete inputs.
mod Instances
mod Scheduler
mod Tracing
mod Schedulers
mod Classifiers
mod Userspace
mod Load
mod Lifecycle
mod Machine
mod Settings
mod Cores
mod Tracers
mod Elements
