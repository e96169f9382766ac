-- ===== src/Lib.antt =====
-- A model of the JOS kernel of Lab 0 (the folder `Lab 0` of the repository; the paths below are
-- inside it).
--
-- Parts. The kernel talks to its user through a console: characters come from the serial port and
-- the keyboard into one input ring, and go out to the serial port, the parallel port and the
-- display. `cprintf` formats text with `vprintfmt`, whose callback hands each character to the
-- console; `snprintf` uses the same engine with a callback that fills a buffer. `readline` reads a
-- line from the console and shows what is typed. All of this rests
-- on the string and memory routines.
--
-- - Prelude: shared names; native-number lists, signed integers (ℤ), bit operations as arithmetic
--   (Bits), and byte memory (Store): `store` is one byte written, `blit` a list of bytes put at an
--   address, `IsStr m s l` says that the C string `l` stands at `s`.
-- - CString: lib/string.c. Scan is strlen, strnlen, strchr, strfind and memfind; Copy is strcpy,
--   strcat, strncpy and strlcpy; Compare is strcmp, strncmp and memcmp; Block is memset, memmove
--   and memcpy in the version that ASM selects, with `rep stos` and `rep movs` given by their
--   effect; Search is strstr; Number is strtol, and Number.Laws says what it reads.
-- - Printf: lib/printfmt.c and kern/printf.c. Number is printnum; Format has getuint, getint, the
--   flags of an escape sequence (`reswitch`) and the text of %s; Engine has the conversions and the
--   loop of vprintfmt; Output shows that what is printed is one text for every callback;
--   Format.Parse, Escape, Conversions and Meaning tell what a format prints, for the flag 0, widths
--   in digits and the conversions d u o x p c s and %; Buffer is sprintputch, vsnprintf and
--   snprintf, Bounded what snprintf leaves in its buffer; Cprintf is putch, vcprintf and cprintf.
-- - Console: kern/console.c. Input is the ring `cons` with cons_intr, serial_intr, kbd_intr and
--   cons_getc, Input.Ring its view as a queue, also when it is full in Input.Queue, and Input.Runs
--   has its runs as a step relation; Display is serial_putc, lpt_putc, cga_putc, cons_putc and
--   cputchar, which Display.Roll follows as a window on a roll of paper, Display.Line with a line
--   under way on it, and Terminal under cprintf; Keyboard is kbd_proc_data with its tables, and
--   Keyboard.Keys what a key struck and let go does to `shift`, whose bits are fields; Setup is the
--   serial port's input and the initialisation of the devices, Setup.Warned how that ends, Getchar
--   the loop of getchar.
-- - Readline: lib/readline.c, over the list of what `getchar` returns and over `cputchar`. Line has
--   the editing of the line as a function on lists, Prompt follows a whole call. Live is readline
--   where getchar and cputchar act on one state, and Typing follows it on the console's own; Seen
--   tells what the display shows of a line.
-- - Mmu: inc/types.h, inc/mmu.h and inc/memlayout.h. Round is ROUNDDOWN and ROUNDUP, Page the
--   fields of a linear address, Layout the memory map and its constants, Segment the segment
--   descriptors of C and of the assembly macros, Gate the gate and task descriptors.
-- - Disk, Elf, Boot: boot/main.c. Disk is waitdisk and readsect over the controller's ports,
--   Disk.Sector what a sector read leaves in memory; Elf reads the fields of inc/elf.h's structures
--   from memory; Boot is readseg and bootmain, followed in Boot.Segment, Headers and Kernel, and
--   Boot.Place tells where the segments end up.
-- - Monitor: the command line of kern/monitor.c (runcmd). Split is the reference splitting of a
--   line into words; Parse, Apart, Run, Line and Answer show that the parser writes and finds them;
--   Commands is mon_help, mon_kerninfo and mon_backtrace, of which Commands.Help, Kerninfo,
--   Backtrace and Walk tell the output.
-- - Sections: kern/elf_rw.c, the kernel's reading of its own debug sections. Sections.Read follows
--   `readseg`, Sections.Table, Headers and Loop the loop over the section headers, Sections.Image
--   and Load the whole of read_section_headers on an image.
-- - Kdebug: kern/kdebug.c, over the reader of kern/libdwarf_*.c as a record of functions;
--   Kdebug.Args and Function follow what is said of a function, Unit the search of a unit, Listing
--   and Units that of all units, and Lookup debuginfo_rip.
-- - Init: test_backtrace, _panic and _warn of kern/init.c, and monitor of kern/monitor.c;
--   Init.Panic and Init.Trace say what a panic and test_backtrace print, Init.Lines has the lines
--   that are typed to monitor, Init.Session follows it over them, Init.Start is i386_init, and
--   Init.Booted says what it leaves.
--
-- Conventions. A pointer is an address, a number; no block runs over the end of the address space.
-- A byte is a number below 256. A fixed-width integer is its bit pattern with its wrap-around
-- written out, or an element of ℤ where the source compares signs (widths and precisions, whose
-- overflow is undefined in C, are unbounded). A routine that changes memory or a state returns the
-- new one. The generic state of vprintfmt is what `putdat` points to; the format and the texts of
-- %s are read in a memory that the callback does not write to. A variable argument is its 64-bit
-- slot, and an `int` stands in it with the upper half clear.
--
-- Code that may panic or that may leave defined behaviour returns a `Run`, which is a result, or
-- stopped: by a panic, by a fault, or because the fuel ran out.
--
-- Fuel. A loop that runs to a terminator, and the loop over what a device has at hand, take fuel
-- and give `none` when it runs out; each theorem about one says how much is enough (one round for
-- each character and one for the end). `printnum` is called with fuel 64, which its theorem shows
-- to be enough for a 64-bit number. Loops with a count recur on the count. In `vprintfmt` a `none`
-- also stands for a read of an argument that is not there.
--
-- The loader works on 32-bit addresses, so its sums wrap at 2 ^ 32. A structure in memory is its
-- little-endian fields at the offsets that the ABI gives them. The program's literals stand at
-- addresses that a record (`Strings`) names.
--
-- The devices. `inb` and `outb` are the processor's, so they are parameters: functions on a state of
-- the devices. A device routine's result -1 is `none`. What the disk controller's documentation
-- says of its registers, and of when it is ready, is the record `IsIde`; Disk.Toy is a controller
-- that satisfies it, and that is busy after a command. Nothing is said of a controller's data while
-- it is busy, so that the theorems on the disk rest on the test of waitdisk. The video memory is a
-- list of the cells of the display, which a write behind the last cell makes longer. The null pointer
-- `info` of mon_backtrace points to what stands at address 0, if memory is mapped there. The
-- reader of debug data leaves its `dbg` as it is, but for the functions that return a new one.
--
-- Not modelled: the tables of register names in kern/kdebug.c, which nothing uses, the assembly
-- files and the flags of the control registers, inc/x86.h, whose functions are the processor's
-- instructions, inc/queue.h, which is the BSD header, and kern/libdwarf_*.c, which is an adapted copy
-- of another project's library.
pub mod Prelude
pub mod CString
pub mod Printf
pub mod Console
pub mod Readline
pub mod Mmu
pub mod Disk
pub mod Elf
pub mod Boot
pub mod Monitor
pub mod Sections
pub mod Kdebug
pub mod Init
