-- ===== src/Lib.antt =====
-- MatrixOS, a small kernel for i386: what its memory allocators, its processes and system
-- calls, its devices and its file systems do, as functions on their states.
--
-- The parts, and the files that model them:
--   lib/string.c: CString. Memory is a function from addresses to bytes; a C string is the list of the
--     bytes from its pointer on, an array the list of its bytes.
--   kernel/interrupts/pic.c: Pic. The commands to the interrupt controllers are a list of port writes,
--     newest first; what a port reads is a parameter.
--   kernel/interrupts/keyboard.c: Keyboard, the scan codes and the ring of typed characters. Queue has
--     the view as a queue, Trace the interrupts and reads in any order, Controller keyboard_init. isr_common_stub of
--     kernel/interrupts/interrupt_asm.asm, which ends an interrupt, is there, too.
--   kernel/interrupts/idt.c, tss.c and interrupt.c: Interrupts, the gates and the task state segment.
--   kernel/drivers/serial.c: Serial, the serial port and its formatted output. Reversal, Loops and
--     Digits have the texts of numbers, Format and Output what a format sends.
--   kernel/mm/pmm.c: Pmm, the buddy allocator of pages. Cover counts in how many free blocks an address
--     lies; Alloc, Free and Init have the three operations, History their sequences, Xor and Pairs
--     the address arithmetic of buddies.
--   kernel/mm/kmalloc.c: Kmalloc, the heap. The chain of headers is the list of blocks with their
--     addresses. Tiling says how blocks fill the heap; Alloc and Release have the two operations, Calls
--     their sequences.
--   kernel/mm/temp_mapping.c: Paging, the slots for temporary mappings over the page tables. Words has
--     the words in memory, Slots the view of the manager as the list of which slots are in use, Entries
--     their page table; Mapping, Release and Undo have the two operations, History their sequences,
--     Deadlock the missing table.
--   kernel/mm/vmm.c: Vmm, the address space of a user program, over Pmm and Paging. Accounts and Failure
--     say which pages it holds, Pages, Copy, Fill and Space what a new one has in its page directory.
--   kernel/process/process.c: Process, the table of processes over Vmm and Loader. Numbers has the order
--     of the table, Calls and History the operations and their sequences, Exit the end of a process.
--   kernel/syscall/syscall.c: Syscall, the handler of int 0x80 over Process, Keyboard, FrameBuffer and
--     Vfs. Effects lists what a call may change, Calls follows sequences of them.
--   kernel/drivers/fb.c: FrameBuffer, the text screen. Cells has the writes to cells, Bounds and Text
--     what fb_write does.
--   kernel/fs/vfs.c: Vfs, the descriptor table. A file system is a record of operations on the state of
--     the rest of the kernel, as `struct file_operations` is; Table, Access and Calls work for any.
--   kernel/process/loader.c: Loader, the modules that GRUB loaded.
--   kernel/fs/ramfs.c: RamFs, the files over those modules.
--   kernel/fs/devfs.c: DevFs, the devices; the console reads Keyboard and writes FrameBuffer.
--   kernel/boot.c: Kernel, boot_vfs_init, which mounts RamFs and DevFs under Vfs. Their operation
--     tables are records that fill the interface of Vfs; its Machine is filled by Kmalloc, FrameBuffer
--     and memory. Dispatch and Reading follow a path and a read down to the file systems.
--   kernel/fs/test_fs.c: Kernel.Demo, the demonstration of the file systems at the start.
--   kernel/boot.c and kernel/kmain.c: Boot, the start of the kernel, with and without the
--     demonstrations. Start has what the start establishes.
-- Prelude has the shared names: native numbers, 32-bit words, the integers of C, lists, loops.
--
-- A function of the source is a function here under its name, from the state before to the result and
-- the state after. A number of type uint32_t is a natural number, and what wraps is written with its
-- remainder (add32, sub32, mul32); an int that can be negative is an integer. A null pointer is `none`,
-- or 0 where it is an address. Error codes are the integers of vfs.h. Messages to the serial log are
-- left out throughout. In Serial, Paging, Vmm, Process and Boot a result is `none` where the kernel does
-- not go on: it waits on a port longer than the patience that is a parameter, it waits for a lock that
-- nobody gives back, or it uses an address without a page. In Syscall it is `none` where a call hands
-- the kernel a buffer to write to that reaches the kernel's own half of memory, from 0xC0000000 on: the
-- kernel does not check it, and what such a write does to its tables and its stack is not modelled.
--
-- Loops run by recursion on the rounds that are left, which the source's bounds give. Where these are
-- not in the loop's head: add_blocks takes one round more than there are pages, and each round takes
-- 2048 pages off; find_area, split and merge take the distance to the highest order; a search takes
-- the number of entries; read_console takes the number of bytes asked for; swap_ends takes the length
-- of the text, dec_loop 10 digits and hex_loop 8, which a 32-bit number does not exceed; temp_map_from
-- counts the calls of temp_map_page within itself, of which the lock lets none but the first go on.
--
-- The kernel's locks are taken and released within a call, and calls do not interleave. The headers of
-- free page blocks, which the allocator keeps in the pages themselves, are lists of their addresses.
--
-- The headers of heap blocks are kept apart from the bytes of memory. kfree and krealloc of a pointer that is
-- no block's, where the source reads what memory happens to hold, change nothing here.
--
-- Memory is seen twice: by the physical address in Paging, Vmm and Process, where page tables lie in it,
-- and by the kernel's virtual address in CString, Kmalloc, Vfs and Syscall; the two are separate fields
-- of the state. A user's string is what a parameter reads at its address.
--
-- Not modelled: the assembly but for isr_common_stub, with the entry to a system call and the switch to
-- user mode, of which process_start gives the arguments; the self tests of memory, which the
-- configuration turns off; and of a loaded program the contents of its pages, beyond the
-- writes themselves.
pub mod Prelude
pub mod CString
pub mod Pic
pub mod Keyboard
pub mod Pmm
pub mod Kmalloc
pub mod FrameBuffer
pub mod Vfs
pub mod Loader
pub mod RamFs
pub mod DevFs
pub mod Kernel
pub mod Serial
pub mod Interrupts
pub mod Paging
pub mod Vmm
pub mod Process
pub mod Syscall
pub mod Boot
