-- ===== src/Lib.antt =====
-- A model of the kernel, with theorems about its page tables and its services. Paths are those of
-- the repository, from its root.
--
-- The parts and the files that model them:
--
-- Page tables, src/memory/paging.rs. `Paging.Normalize` is `normalize_map_list`: the parallel
-- vectors of ranges and flags become a list of pairs (`zip`), the `while` loop is `carve` with `cut`
-- for one old range, the `for` loop `insert_all`, then come `sort` and `merge`. `Paging.Flags` has
-- the flags and `to_pml5f` to `to_ptf`, `Paging.Level` the levels. `Paging.Table` is memory: the
-- entries of every table, the addresses that the allocator will give out, and what it was given
-- back. `Paging.Build` is `create_recursive`, one definition for each level that the recursion goes
-- through (`create_pt` to `create_pml5`), each given the one below; `Paging.Create` is
-- `create_page_table`, and `Paging.Walk` is `get_addr`. `PHY_OFFSET` is 0. The crates x86 and x86_64
-- are the record `Paging.Hardware.Hardware`; `IsX86` says what an entry of a table holds by the
-- manuals, and `plain` is an instance. The children of `Paging.Build` carry the proof: the slots of a
-- table, the entries, what a call may touch, what a table translates, one slot, the loop, and how
-- many tables a call takes. The loops run 512 rounds, as in the source, so no fuel is needed.
-- `Paging.Dealloc` is `dealloc_recursive`, as the list of the tables that a call gives back;
-- `Paging.Update` is `update_recursive`, whose state is the memory with `tmp_vec` and `frlevel`, and
-- `Paging.Update.Top` is `update_paging`. There `IsRaw` says that the tests on words read the bits
-- that the crate reads, and `IsInUse` that the tables in use form a tree, each below one entry, and
-- are not in the allocator's supply.
--
-- Ranges, src/util_types.rs. `Range` is `MemRangeData`, at words of 64 bits that wrap as in a
-- release build; `Range.Smart` is `SmartPtr`.
--
-- Errors, src/result/types.rs: `Errors`. Page tables fail with them.
--
-- Log, src/logger/core.rs and src/logger/types.rs: `Log` has the buffer, `add_log`, `read_log` and
-- the iterator. The loop of `next` has fuel; one round more than there are records left is enough.
--
-- Data passed by address, src/send_and_get.rs: `SendAndGet`, with each method as a function to its
-- result and the data after it, and the drop as the vector that is given back.
--
-- CMOS clock, src/timer/rtc.rs: `Rtc`. The chip behind the ports 0x70 and 0x71 is a parameter;
-- `IsChip` says that it keeps its registers. The wait for the end of an update has fuel, and one
-- test is enough where none is under way.
--
-- Time stamp counter, src/timer/tsc.rs: `Tsc`, at the readings of the counter that the caller makes.
--
-- Batch operations, src/simd/mod.rs: `Simd`, for the operations of two slices of unsigned integers
-- that are defined on all lanes, `Simd.Division` for those that may panic, and `Simd.Shifts` for those
-- of one slice. The loop by blocks has as much fuel as there are elements.
--
-- CPU flags, src/cpu_flags/mod.rs and local_macros/src/lib.rs: `CpuFlags` has the detection and the
-- cache, `CpuFlags.Numbering` what the macro makes of a tree of flags. `cpuid` and the control register
-- are a parameter, and do not change.
--
-- Start of the other processors, src/multi_core/init/raw.rs: `Trampoline` has `init_trampoline` over
-- `Start.Update` and the walk of `Paging`. The program that it copies is assembled by the
-- build and a parameter; the statement holds for one that ends on a page bound, as that one does.
--
-- Executor, src/asy_nc/mod.rs: `Executor` has one processor's `run` and the processors that spawn
-- onto it as steps between atomic accesses; the queue is locked while a task is polled. `Tickets` has
-- the timers, both those that a timer is put into and those that `run` looks at in each round, and
-- `Executor.Join` the handle that `spawn` returns and the end of its task.
--
-- Mutexes of the ACPI interpreter, src/acpi/handler.rs: `AmlMutex`. The loop of `acquire` has fuel;
-- one round more than the timeout is enough, and no fuel is for the timeout that never ends. A call
-- holds the lock of all mutexes from its beginning to its end, so it is one step; `AmlMutex.Guarded`
-- has the calls of several processors as the steps between taking and giving back that lock.
--
-- Configuration space of PCI, src/acpi/handler.rs: `Pci`, over the ports 0xCF8 and 0xCFC, which are a
-- parameter; `IsConfigSpace` says that they reach registers that keep what is written.
--
-- Local APIC, src/apic_helper/mod.rs: `Apic` has the interrupts to other processors. The processor's
-- registers are a parameter; `IsLocalApic` says what a command does in either mode, and that it is
-- delivered after some readings, as many as the loop of the broadcast has fuel. `Apic.Setup` has
-- `init_local_apic`; `IsRegisterFile` says that the registers it writes keep what is written.
--
-- Firmware, src/uefi_helper/boot.rs: `Firmware` has the iterator of the memory map and
-- `exit_boot_services_with_talc`. The boot services are a parameter. A loop over the iterator has
-- fuel; one round more than the map has bytes is enough.
--
-- The kernel's tables, src/main.rs: `Start` has `create_paging` and `clone_paging` over `Paging`,
-- `Start.Exit` `update_paging` and `exit_uefi` on the descriptors that the firmware leaves,
-- `Start.Grow` `change_allocator`, where the firmware's `allocate_pages` is a parameter and
-- `IsFinite` says that its pages run out, and `Start.Update` `util_update_paging`,
-- `util_update_add_paging` and `map_physical_region` of src/acpi/handler.rs. The loop of
-- `change_allocator` has fuel: as much as the firmware has pages and the first size has bytes.
--
-- Physical allocator, src/memory/physical_allocator.rs: `PhysicalAllocator`, over two allocators that
-- are parameters. Interrupt handlers, src/interrupt/api.rs: `Interrupt`.
--
-- Version file, src/version/types.rs: `Version` has the hashes and the names of their algorithms.
--
-- Not modelled: the rest of src/main.rs, which calls devices and the other parts in order; batches of
-- integers with a sign and of floating point; the reference counts of wakers, the wakes of other
-- processors and the choice of an executor; the interrupts of the NMI and the handlers of the APIC; and
-- what only reads and writes devices or formats texts. Sources of time, ports and atomic accesses are the
-- processor's and appear as parameters or steps.
pub mod Base
pub mod AmlMutex
pub mod Apic
pub mod CpuFlags
pub mod Errors
pub mod Executor
pub mod Firmware
pub mod Interrupt
pub mod Log
pub mod Paging
pub mod Pci
pub mod PhysicalAllocator
pub mod Range
pub mod Rtc
pub mod SendAndGet
pub mod Simd
pub mod Start
pub mod Tests
pub mod Tickets
pub mod Trampoline
pub mod Tsc
pub mod Version
