-- ===== src/Lib.antt =====
-- A model of the abstract machine (AM) and of its C library klib, with the theorems that the code
-- meets its purpose, or where it does not.
--
-- The program. The AM (am/src) gives programs a bare machine on several platforms; klib (klib/src)
-- is the C library that programs on it use.
--
-- klib.
-- * Klib/Mem models klib/src/string.c's memset, memcpy, memmove and memcmp, Klib/Str the string
--   functions of the same file. Memory is a function from addresses to bytes; a function that
--   writes returns the new memory. `size_t` has 32 bits, as on the riscv32, mips32, loongarch32r
--   and x86 targets, and the address arithmetic that the source does in `size_t` wraps.
-- * A loop that runs until it meets a NUL takes fuel and returns `none` when that runs out; its
--   theorems ask for one unit more than the length of the string. A counted loop recurs on its
--   count.
-- * Klib/Stdlib models klib/src/stdlib.c: rand, srand, abs, atoi, free, and malloc in its 32-bit
--   RISC-V form with ROUNDUP and IN_RANGE of klib/include/klib-macros.h. A signed overflow, which
--   C leaves undefined, is a result of its own.
--
-- * Klib/Stdio models klib/src/stdio.c. The arguments of a call are a list of 32-bit words, one
--   for each va_arg; the address of the literal "-2147483648" in int2str is a parameter. The loop
--   over the format takes fuel, one unit more than the format has characters.
--
-- The native platform.
-- * Native/Input models am/src/native/ioe/input.c: the ring of key codes, the event thread's part
--   and the register's. The table from SDL's scancodes is an argument.
-- * Native/Vme models am/src/native/vme.c with __am_pmem_map of platform.c: the list of page maps
--   of an address space, and what the host has mapped. The fields of a node are functions of its
--   address; physical memory is a file that the host has mapped at PMEM_START. mmap and munmap, the
--   hash tables of the C library and the client's pgalloc are parameters; a hash table is asked
--   with the number whose text is the key. The loops of __am_switch take fuel, one unit more than a
--   list has nodes.
-- * Native/Cte models am/src/native/cte.c and ucontext of vme.c: how a signal becomes a trap, the
--   stack that irq_handle runs on, and the return. The registers are a record, and the contexts in
--   memory a function of their address. The size of a context and the addresses of functions are
--   a parameter, as is the client's handler. irq_handle uses __am_switch of Native/Vme.
-- * Native/Mpe models mpe_init of am/src/native/mpe.c: a schedule is a list of the processes in the
--   order of their steps; a process that reads from the empty pipe does nothing in its step.
-- * Native/Disk models am/src/native/ioe/disk.c. The calls of stdio are a parameter, with what is
--   documented of them as a record (Native/Disk/File), where the host may refuse a write; block
--   numbers are not negative, and a product that an int does not hold is a result of its own, as is
--   a failed assertion.
-- * Native/Audio models the queue of samples of am/src/native/ioe/audio.c over a pipe that is a
--   parameter. Its loops take fuel, of which two rounds are enough when the pipe takes a buffer at
--   once. The two threads' calls are one step each; SDL's device is left out.
--
-- Ioe models the tables of device registers of am/src/native/ioe.c, platform/nemu/ioe/ioe.c,
-- riscv/npc, riscv/ysyxsoc, riscv/spike and x86/qemu with the numbers of am/include/amdev.h. The
-- functions in a table are names; Ioe/Native has the first access that sets the native devices up.
--
-- The x86 machine under QEMU, with 32 bits. Am has the events of am/include/am.h.
-- * X86/Vme models the page tables of am/src/x86/qemu/vme.c for 32 bits: ptwalk and map, over a
--   memory of words. pgalloc belongs to the client and is an argument, with the laws of a page
--   allocator as a record (X86/Vme/Entries). A panic is `none`. The same file has the entries that
--   the hardware finds, by quotients and remainders, which the theorems are stated with.
-- * X86/Vme/Space models protect, unprotect and teardown. The copy of the kernel's directory
--   entries takes fuel, one more than the 256 entries of the larger area. X86/Vme/Kernel models
--   vme_init, whose loops take one unit more than the larger area has pages, 262144.
-- * X86/Desc models the descriptors of am/src/x86/x86.h, X86/Cte the traps: __am_irq_handle, the
--   table that cte_init fills in, and kcontext and ucontext. The assembly stubs that save and
--   restore a context are left out: __am_irq_handle takes the trap frame, and returns the context
--   for __am_iret. What the code reads from and writes to the processor is a record.
-- * X86/Ports is the interface to the devices, with the laws of an ATA disk, and a parameter of the
--   drivers. X86/Disk models the disk of am/src/x86/qemu/ioe.c, X86/Boot the loader of
--   am/src/x86/qemu/boot/main.c. A wait for the disk takes fuel, one unit more than the disk is
--   patient; a loop over sectors or bytes takes one unit more than it has rounds.
-- * X86/Gpu and X86/Canvas model the screen of ioe.c, X86/Ioe the serial port and the keyboard,
--   X86/Timer the clock and X86/Apic the interrupt controllers. The order of the reads of a date,
--   which C leaves open, is an argument of timer_rtc, which takes two units of fuel on a clock that
--   is read fast. The fields of a request to draw are integers, and a sum that is no `int` or a
--   pixel before the frame buffer is `none`. The depth and the width of a canvas are bounded by
--   fuel.
-- * X86/Start models am/src/x86/qemu/trm.c and mpe.c: the heap, the search for the processors, the
--   table of segments, halt and __am_stop_the_world. The loop over the entries of the processors'
--   table takes as much fuel as the table has bytes, and one more.
-- * X86/Mpe models mpe_init and the start of the other processors: a schedule is a list of the
--   processors in the order of their steps, and a step is an access to the variables they share.
--
-- The NEMU platform.
-- * Nemu/Gpu models the frame buffer of am/src/platform/nemu/ioe/gpu.c with the addresses of
--   RISC-V. Memory and devices are one map from byte addresses to words.
-- * Nemu/Audio models the buffer of samples of am/src/platform/nemu/ioe/audio.c; the device is a
--   parameter, and the wait for room in its buffer takes fuel.
-- * Nemu/Clock models the keyboard register and the clock of am/src/platform/nemu/ioe/input.c and
--   timer.c, and the clocks of am/src/riscv/npc and am/src/riscv/spike, which are read in two
--   halves.
-- * Nemu/Traps models the table of am/src/x86/nemu/cte.c and the jumps of am/src/mips/nemu/cte.c.
--
-- RISC-V.
-- * Riscv/Cte models am/src/riscv/nemu/cte.c on 32 bits with 32 registers: the event of a trap, the
--   call of the client's handler, and kcontext. A context is the words at its address. Riscv/Vme
--   models am/src/riscv/nemu/vme.c on 32 bits, whose protect copies with klib's memcpy.
-- * Riscv/Uart models the serial ports of riscv/ysyxsoc/trm.c and riscv/nutshell/common/uartlite.c
--   on a bus that is a parameter; a wait takes fuel, one unit more than the port is busy.
--
-- Not modelled: memchr of klib/src/stdlib.c, klib/src/int64.c, am/src/riscv/*/libgcc and the host
-- interface of am/src/riscv/spike, which are copies of other projects' code; the order of the
-- calls at start-up on x86; the native screen, serial port and clock, which call SDL and the host,
-- and the start-up of the native platform; the other devices, traps and start-up code of the other
-- targets; the forms of x86 with 64 bits; assembly, linker files and build scripts.
pub mod Prelude
pub mod Am
pub mod Ioe
pub mod Klib
pub mod Native
pub mod X86
pub mod Nemu
pub mod Riscv
