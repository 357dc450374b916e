-- ===== src/Tests.antt =====
-- Concrete runs, at which the hypotheses of the theorems hold.
mod Boot
mod Flags
mod Kernel
mod Memory
mod Others
mod Pages
mod Processors
mod Services
mod Tasks
