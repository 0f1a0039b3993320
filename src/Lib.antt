-- ===== src/Lib.antt =====
-- The verification library of the THUOS kernel.
--
-- Parts and files, with the code they are about:
--
-- - Base: shared names, lists over the native numbers, Boolean tests, 8-, 16-, 32- and 64-bit
--   arithmetic, integers with sign in Int, single bits, evaluation of small tables, and the search for
--   the first entry.
-- - FrameBitmap: kernel/mm/frame_bitmap.c, one bit for each page frame. The bitmap is the list of its
--   bytes. Marks has single frames, Regions the loops over a region, Alloc the search and the count.
-- - Pmm: kernel/mm/pmm.c, the allocator of page frames over the bitmap. Its static variables are the
--   record `Pmm`. Boot is `pmm_init`, with the memory that the boot loader left (kernel/mm/multiboot.h)
--   and the two symbols of linker.ld as parameters. Walk, Init, FromMap and BigMemory are about the
--   start; Reserve, Frames and Free about the calls; Clients about any sequence of calls.
-- - Sched: kernel/sched/sched_core.c, the round-robin table. Search, Invariant, RoundRobin and Slice.
-- - Tasks: kernel/sched/task.c and kernel/sched/context.S, the stacks of tasks and the switch between
--   them, on the words of memory at addresses that are multiples of 4; Switch.
-- - CStrings: kernel/lib/string.c, and the comparison and the bounded copy that
--   kernel/fs/ramfs_core.c and kernel/ai/ai_core.c keep privately. A string is its characters before
--   the terminating 0, and the mem routines work on one array, at offsets.
-- - Ramfs: kernel/fs/ramfs_core.c, the file table and its arena. Files, Write, ReadBack, LongNames.
-- - Ai: kernel/ai/ai_core.h and kernel/ai/ai_core.c, and in Commands the shell command of
--   kernel/ai/ai.c.
-- - Vmm: kernel/mm/vmm_core.c, the page directory and the pool of page tables; Identity. SetUp is
--   kernel/mm/vmm.c, and Window about its windows onto the framebuffer and onto devices.
-- - Keyboard: kernel/drivers/keyboard.c, the ring between the interrupt and the readers; Queue.
-- - Mouse: kernel/drivers/mouse.c, packets and the pointer; Pointer.
-- - Syscall: kernel/arch/x86/syscall_core.c, the table of system calls, over any state; Dispatch. Kernel is
--   kernel/arch/x86/syscall.c, over the console and the clock, and Answers says what int 0x80 answers.
-- - Kheap: kernel/mm/kheap_core.c, the first-fit heap, and in Kmalloc kernel/mm/kheap.c. Headers and
--   bytes are maps from addresses. Cells says what a heap is: blocks that fill the arena one after the
--   other, no two free ones side by side. Alloc and Place, Free and Release, Payloads and Realloc are
--   about the calls, Counts about the checks, Start about `heap_init`.
-- - Descriptors: kernel/arch/x86/gdt.c, tss.c, idt.c and usermode_core.c beside it. Gates is about
--   segments, Vectors about the interrupt vectors that isr.c, irq.c and syscall.c there set.
-- - Interrupts: kernel/arch/x86/isr.c, irq.c, pic.c and pit.c, the routing of interrupts to handlers;
--   Clock is about the ticks.
-- - Vga: kernel/drivers/vga.c, the text screen. Cells, Screen and Typing.
-- - Lfb: kernel/drivers/lfb.c, the framebuffer, whose pixels are a map from indices of words. Clip and
--   Fill are about rectangles, Blit about copies to a buffer and back, Within about text and scrolling.
--   Shapes, with Roots, Disc and Line, has what is drawn from rectangles and pixels, Text the
--   characters, in a font that is a parameter, and Start the start of the display, with the PCI
--   configuration space as a parameter; Mapped is about its window, which Vmm maps.
-- - Gconsole: kernel/gui/gconsole.c, the console on the framebuffer; Inside.
-- - Desktop: kernel/gui/desktop.c, the mouse cursor; Overlay.
-- - Calculator: kernel/gui/apps.c, the calculator; Keys, and Sums about exact sums on integers.
-- - Notes: kernel/fs/fs.c, and the notes of kernel/gui/apps.c, which are saved to it; Saved.
-- - Xhci: kernel/drivers/usb/xhci.c, the rings, the events and the reports. Rings, Reports, and in Poll
--   `usb_poll`, which hands characters to Keyboard and movements to Mouse.
-- - Kprintf: kernel/core/kprintf.c, and the characters that kernel/drivers/serial.c sends. Digits,
--   Numbers and Log. It writes to the screen of Vga.
-- - Shell: kernel/shell/shell.c, the numbers that commands take, the history and the editing of the
--   line; Addresses is about numbers that were printed.
-- - Features: kernel/os/feature_registry.h and kernel/os/feature_registry.c; Counts.
--
-- A function keeps its name, and a function that writes through a pointer returns the new state. A
-- loop is structural recursion on the rounds that are left of its bound; where the C loop has a
-- second condition it is tested in each round. The loops without such a bound run on fuel. Those of
-- the heap take a round for each block, and the size of the arena and one more are enough. The walk of
-- `pmm_init` over the memory map runs on fuel too, and one unit for each byte of the map and one more
-- are enough when no entry's step wraps, since each step is at least four bytes. -1 and NULL are
-- `none`; a result code is a data type. `lfb_line` runs on fuel, and its longer span and one more are
-- enough; `isqrt` takes a round for each unit at most, and its result is where the loop's test fails.
-- The coordinates that are drawn at are integers without bounds; where a drawing is compared with its
-- shape, they are so small that the sums of the code are ints.
--
-- The modules named Examples have tests and each theorem at a concrete input.
--
-- What hardware gives is an argument, and what is written to ports is a list or, for the cursor, a
-- position.
--
-- Not modelled: the texts that commands print, getters of one field and labels; the entry to user
-- mode, which is assembly; the demo of cooperative tasks; the font, which kernel/drivers/gfx.c reads from the
-- card; the layout of the desktop and its other applications; the commands of the shell; the discovery
-- of the USB controller and of its devices.
pub mod Base
pub mod FrameBitmap
pub mod Pmm
pub mod Sched
pub mod CStrings
pub mod Tasks
pub mod Descriptors
pub mod Interrupts
pub mod Ramfs
pub mod Ai
pub mod Vmm
pub mod Keyboard
pub mod Mouse
pub mod Vga
pub mod Lfb
pub mod Gconsole
pub mod Desktop
pub mod Calculator
pub mod Notes
pub mod Xhci
pub mod Kprintf
pub mod Shell
pub mod Syscall
pub mod Features
pub mod Kheap
