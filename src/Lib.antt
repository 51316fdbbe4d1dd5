-- ===== src/Lib.antt =====
-- The illinix_os kernel, a small teaching operating system for the i386: C and some assembly at the
-- root of the repository. Interrupts and system calls enter the C code, which keeps everything in
-- global variables; each program runs on one of three terminals, in one of six pages of memory.
--
-- The parts, and the files that model them:
--   * lib.h, lib.c. Io holds the port accesses and the interrupt flag, as a trace of events; what a
--     device answers is a parameter. Libc holds the string functions, over the bytes from a pointer
--     to the end of the memory that the caller owns. Console holds the text screen: putc,
--     putc_background and clear, with the cursor of a terminal and the memory of the screen.
--   * i8259.c in Pic, and RTC.c in Rtc, over the same trace. RTC_read waits for a flag that the
--     interrupt handler sets: what it sees while it waits is a list of ticks.
--   * sound.c in Sound, over the same trace.
--   * page.c in Page: the page directories and the two shared page tables, as functions from indices
--     to entries. Page/Translate holds the walk of the processor through them.
--   * file_system.c in FileSystem (the image, the lookups and read_data) and FileSystem/Files (the
--     functions behind the jump tables, with the globals of the file).
--   * system_call_handler.c in Process (the process control blocks; open, close, read and write,
--     here sys_open and so on) and Process/Execute (execute, halt, getargs and vidmap). The drivers
--     behind the jump tables are an interface, the record Drivers, whose law is IsDriver.
--     Process/Filing fills it in with the functions of file_system.c, over the drivers of the other
--     devices.
--     Process/Execute/Stack sees the terminals as three stacks of processes with the pages that they
--     own, which is the contract of execute and halt; its file Memory is about the page directories
--     and the memory of the processes when a program starts. Descriptor and Terminal hold the records of
--     lib.h that the parts share.
--   * pit.c in Scheduler: PIT_init and the handler of the timer, over the same processes.
--     Its end by iret or by execute is a result (Switch).
--   * x86_desc.h and interrupt_desc_table.c in Interrupts: idt_init over the fields of the 256
--     descriptors, and the handlers of the exceptions, which end the program by halt.
--   * keyboard.c in Keyboard: the handler of the keyboard interrupt for the displayed terminal, with
--     what it prints as a list of actions; terminal_read of terminal.c, which takes the line, in
--     Terminal/Driver; terminal_open, terminal_close and terminal_write are in Terminal/Output.
--     Keyboard/Blocking has terminal_read with its wait, over a list of what happens meanwhile.
--   * mouse.c in Mouse: the commands for the controller, the pointer and the left click, which prints
--     with putc of Console.
--   * the formatted output of lib.c in Format: itoa, strrev, puts and printf, with what is printed as
--     the list of the characters for putc.
--   * terminal_init in Boot, with the states that the kernel comes to from there by ticks of the timer,
--     system calls and other code.
--
-- C code that would access memory out of range, or call a null pointer, has the result none. An int
-- is a 32-bit word, so that -1 is 4294967295. Loops over an array recurse on the array or on the
-- rounds that are left; with fuel are the loop of RTC_write, which halves a number below
-- 2 ^ 12 in each of its twelve rounds, those of itoa and strrev, which write a byte of the
-- buffer in each round and get a round more than it has bytes, and the waits of mouse.c, which give
-- up after 100000 rounds. The inline assembly that switches stacks is not
-- executed: a system call that does not return to its caller says where it goes (Outcome).
--
-- Not modelled: the assembly of boot.S, syscall.S and x86_desc.S and the inline assembly of memset,
-- memcpy and memmove (no C code); of kernel.c the boot sequence, which prints the data of the boot
-- loader, sets up the segment descriptors and draws a picture; the VGA mode setting of modex.c and the
-- fonts of text.c; the tests of tests.c, and test_interrupts of lib.c; and of keyboard.c the port
-- reads and the end of the interrupt.
pub mod Base
pub mod Libc
pub mod Io
pub mod Descriptor
pub mod Boot
pub mod Console
pub mod FileSystem
pub mod Format
pub mod Interrupts
pub mod Keyboard
pub mod Mouse
pub mod Page
pub mod Pic
pub mod Process
pub mod Rtc
pub mod Scheduler
pub mod Sound
pub mod Terminal
