-- ===== src/Tests.antt =====
-- The results at one small machine, whose frame allocator counts upwards, and at one small
-- schedule.
mod Machine
mod Pages
mod Calls
mod Schedule
mod Store
mod Signals
mod Switches
mod Cache
mod Blocks
mod Files
mod Contents
mod Session
