-- ===== src/Lib.antt =====
-- Verification of Fern-Night, a 64-bit operating system in C. The kernel keeps a binary map of the
-- physical pages (memory), the paging tables of the processes (paging), byte streams between tasks
-- (streams), the queue of tasks (job queue) and a list of messages (messages); programs reach these
-- by the services of kernel/service.c. The routines of library/ serve the kernel and the programs. The
-- window manager is a program, and the collector of closed tasks runs inside the kernel.
--
-- Which file models which part (each struct is a record with the struct's fields, each function a
-- definition with the function's name; a global of `struct KERNEL` is a field of the record that is
-- passed in and given back):
-- Kernel/Memory: kernel/memory.c and kernel_page_clean of kernel/page.c; kernel_memory_share, which
--   works on a process, is in Kernel/Service.
--   Kernel/Memory/Map has the bits of a map, Acquire the search, Count the counter, Alloc and Valid
--   the allocation of pages, Clean what a release zeroes.
-- Kernel/Page: kernel/page.c. The four nested loops that kernel_page_alloc, kernel_page_clang,
--   kernel_page_flags and kernel_page_map share are written once, in Kernel/Page/Walk, and differ in
--   what they do at a slot. Kernel/Page/Merge is kernel_page_merge, Kernel/Page/Release is
--   kernel_page_deconstruction.
-- Kernel/Stream: kernel/stream.c. Ring, Receive and Transfer are about the bytes, Table about the
--   streams' table, Meta about the metadata, Value about numbers.
-- Kernel/Task: kernel/task.c without kernel_task, which is assembly, and the services that exit, sleep
--   and read the clock and the flags of a task.
-- Kernel/Ipc and Kernel/Service: the messages and the memory calls of kernel/service.c.
-- Kernel/Driver: kernel/driver/. Keyboard and Mouse are the handlers of ps2.c and the reading of a key,
--   Controller the set-up of the controller, Rtc is rtc.c with the handler of kernel/rtc.c, Serial is
--   serial.c with kernel/log.c; a number with a prefix above 64, which is written behind its array,
--   gives `none`. The bytes of the ports are arguments, what is sent is a result. Matrix
--   has the two tables of keys, Letters says which are keys of letters, Typed and Shift are about
--   sequences of keys, Packets about movements.
-- Kernel/Loader: kernel/library.c and the steps of kernel/exec.c. Elf has the structures of a file in the
--   ELF format, read from the bytes of the memory, Function is about the search for a function in the
--   libraries and Function/Symbols in one, Link fills the table of addresses of functions (it has no
--   theorem), Segments copies an image into its place and lays out the stack of a program with its
--   arguments.
-- Library/Text, Library/Integer, Library/Json: library/shared/string.c, integer.c and json.c;
--   Library/Sys: pow, memcpy, memset and abs of library/shared/sys.c, and in Library/Sys/Heap its malloc,
--   realloc and free, for which the answer of the system call is an argument.
-- Library/Vfs: library/vfs.c and kernel/storage.c.
-- Library/Color and Library/Font: library/shared/color.c and font.c; the table of the pictures is an
--   argument. Frame is about the rows that are drawn in.
-- Library/Interface: library/shared/interface.c, the elements of a window: Draw shows them, Hover marks
--   the ones under the pointer, Header is about the lines with the name. Coordinates of
--   int16_t are kept with 2 ^ 15 added.
-- Library/Terminal: library/shared/terminal.c. What draws a character is an argument, and
--   Library/Font/Screen is its instance by lib_font.
--   Cursor is about the position, Bounds, Window and Frame about the words that are written, Start
--   about lib_terminal. An address counts words of 32 bits.
-- Software/Wm: the window manager. It keeps a table of objects, the list of those that are shown,
--   back to front, and a list of zones of the screen that are to be drawn again. A round handles
--   events, passes over the objects, splits the zones into fragments of objects, fills them in the
--   framebuffer and copies that to the graphics card.
--   Software/Wm/Zones is software/wm/zone.c, Fill is fill.c, Objects, Moving and Passes are object.c,
--   Passes also sync.c and the loop of software/wm.c, Event and Input are event.c and ipc.c; Redraw puts zones and filling together, and
--   Flags has the bits of flags. Coordinates of int16_t are kept with 2 ^ 15 added. A pointer to an
--   object is a number, 0 for EMPTY; a read through EMPTY gives `none`. What the system calls answer
--   (messages, keys, the mouse, new memory, whether a task lives) is an argument, and what is sent is
--   a field of the state.
-- Software/Console: software/console.c, what the console does with the bytes of its input stream: step is
--   one sequence or character, parse the loop, receive the whole round. The terminal and the header with
--   the name are drawn in one memory, by the definitions of Library/Terminal and Library/Interface; the
--   requests to the window manager are a list. A name of more than 39 bytes, which is written behind its
--   array, gives `none`. Steps is about one step, Sound has what holds after every step, Stream
--   what holds after a round.
-- Daemon/Gc: daemon/gc.d.c, with the kernel's functions that it calls as lists of their calls.
-- Prelude: lists, bits and machine words. The modules named Tests run the theorems.
--
-- Memory is a function from addresses to words or bytes, so that every address can be read, as in C.
-- Machine integers keep their wrap-around. A loop on a semaphore that another processor holds does
-- not end: the function gives `none`. Processors are not interleaved: a call runs from its lock to
-- its unlock.
--
-- Loops whose bound is known before are structural recursion on the rounds that are left. Fuel is
-- used where the source has no bound: kernel_memory_acquire has the page limit as fuel, as its
-- position grows in every round; kernel_task_select counts the passes over the queue, and two are
-- enough where some task is ready; kernel_service_ipc_send counts the entries that it looks at; the
-- scans of strings, packages and json count characters or records; a number of 64 bits has at most
-- 64 digits. wm_zone has the limit of its list as fuel, and the pass over the objects the length of
-- theirs. The loop of the console has the number of bytes as fuel, as each step is by one byte at
-- least, and looks for the end of a name among 256 bytes, for which its counter has room. The search
-- for a function has fuel for the lengths of names. The recursion of the collector has more fuel than
-- the number of the last task: a child has a greater number than its parent.
--
-- Not modelled: interrupt tables, the kernel's start and everything in assembly; kernel_exec and
-- kernel_library_load as a whole, which join their steps with memory, paging and tasks; printf, log and
-- all else with floating point; images; the conversion of an interface from json, its lists, and the
-- messages that open and close a window; the threads of the window manager (its menu and taskbar) and
-- its start; the set-up of the console, and the other programs. Another processor that runs a task
-- puts it aside while the collector waits, and does nothing else then.
pub mod Prelude
pub mod Kernel
pub mod Library
pub mod Daemon
pub mod Software
