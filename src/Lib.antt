-- ===== src/Lib.antt =====
-- Verification of libos, the bare-metal support library for Freescale QorIQ cores.
--
-- The program's parts. Applications and hypervisors link libos for a console, memory routines and the
-- core's set-up. lib/queue.c is the byte queue that character devices and their clients exchange data
-- with: interrupt handlers of a device (lib/dev/ns16550.c, lib/byte-chan.c) write to and read from it,
-- lib/console.c and lib/readline.c stand on its other side. lib/string.c, lib/sprintf.c and lib/stdio.c
-- are the C library that all of it uses. Memory comes from lib/simple-alloc.c and from lib/malloc.c, a
-- copy of another project's allocator. lib/mpic.c, lib/pamu.c, lib/fsl-booke-tlb.c and the assembly
-- files drive the hardware.
--
-- The files.
--   Errors.antt: the error codes of include/libos/errors.h and results that carry one.
--   Queue.antt: lib/queue.c and the inline functions of include/libos/queue.h. `Queue` is `struct queue`
--   with the bytes of `q->buf`; `init`, `destroy`, `read_at`, `read`, `readchar`, `write_at`, `write`,
--   `writechar`, `discard`, `purge`, `wrap`, `get_avail`, `get_space`, `empty` and `full` are the functions
--   `queue_...` of the same name. Queue/Facts.antt has the invariant, Queue/View.antt the bytes that a
--   queue holds, oldest first, Queue/Fifo.antt the bounded FIFO that specifies the queue, Queue/Run.antt
--   sequences of operations, and Init, Read, Write and Chars what single operations do.
--   Queue/Transfer.antt: `queue_to_queue` (without blocking) and `queue_to_chardev`; Moves and Sends
--   below it have their theorems.
--   Strings.antt: lib/string.c. Copy.antt has `memcpy` and `memmove` on one memory, Measure.antt `strlen`
--   and `strnlen`, Compare.antt `memcmp`, `strcmp` and `strncmp`, Search.antt `strchr`, `memchr`, `memrchr`
--   and `strstr`, Build.antt `strcpy`, `strncpy`, `strcat` and `strncat`, Number.antt `strtoull` and
--   `strtoll`; the Laws module below each has its theorems.
--   Printf.antt: lib/sprintf.c. Output.antt has `printf_string` and `printf_fill`, Numbers.antt
--   `printf_num`; Numeral, Shown, Rendered and RoundTrip below it have its theorems. Format.antt reads
--   one conversion of `vsnprintf`, Format/Machine.antt has its loop over the format: a step says which
--   output functions are called, and `perform` calls them. Refine, Rest and Full beside it have theorems.
--   Alloc.antt: lib/simple-alloc.c. `alloc` is `__alloc`, which `simple_alloc` and `valloc` call with
--   allocators of their own; Alloc/Blocks.antt has the theorems and Alloc/Served.antt what they speak of.
--   Segments.antt: the segment table of lib/malloc-wrapper.c, `malloc_add_segment`, `malloc_exclude_segment`
--   and `malloc_alloc_segment` without their prefix; Segments/Cover.antt says which addresses it covers.
--   Pamu.antt: the tables of lib/pamu.c with the entries of include/libos/pamu.h. Pamu/Config.antt has
--   the operations on them, `pamu_...` without the prefix, Pamu/Hw.antt `pamu_hw_init` and
--   `pamu_enable_interrupts`; Entry, Window, Access, Fspi and Layout beside them have the theorems.
--   Mpic.antt: an interrupt source of lib/mpic.c with its registers, `mpic_...` without the prefix, and
--   `interrupt_reset`, `interrupt_mask` and `interrupt_unmask` of lib/interrupts.c. Mpic/Setup.antt has the
--   controller: `mpic_init` (`init`, and `init_sources` for what comes before the reset of the core),
--   `get_mpic_irq` (`get_irq`) and `error_int_register`; Mpic/Summary.antt `__mpic_get_critint` and
--   `__mpic_get_mcheckint` (`get_int`), Mpic/ErrorInt.antt `error_int_handler` and the operations on
--   `EIMR0`. Vector, Nesting, Lookup and Initial have theorems.
--   Drivers.antt: lib/driver.c, with `libos_bind_driver` as `bind_driver`; the probe function of a driver is
--   a parameter. Course has the courses of the search; Bound, Match and Names have theorems.
--   Readline.antt: the state of lib/readline.c and what it draws; Readline/Edit.antt has the lines of the
--   history and the edits (`get_newline`, `dup_line`, `delete_char`, `backspace`, and `insert_char` for a
--   printable character), Readline/Keys.antt the `switch` of `readline_rx` (`key_step`), the return key
--   (`enter`, `finish_action`) and the loop over keys (`run`). Draw, Text, History, Editing, Safe, Commands,
--   Total, Screen, Typing and Faults have theorems.
--   Uart.antt: lib/dev/ns16550.c, `ns16550_...` and `__ns16550_...` without the prefix; what IIR and LSR read
--   and the bytes that come in are arguments, and `sent` has what was written to THR. Uart/Events.antt has
--   courses of interrupts and calls and the invariant of the interrupt enable; Send, Receive, Round, Polling,
--   Prefix, Setup and Sound have theorems.
--   ByteChan.antt: lib/byte-chan.c, with the replies of the hypervisor as an argument, a list that the loops
--   take one by one; Send and Receive have theorems.
--   Console.antt: lib/console.c, with its functions under their names; `drain_consolebuf_cd` and
--   `drain_consolebuf_queue` are `drain_cd` and `drain_queue`, and the device is a parameter. Push, Write,
--   Crash and Past have theorems.
--   Prelude.antt and its children: lists, byte arrays, machine words and bit masks. Each Tests.antt runs
--   its component at fixed inputs.
--
-- How C is read. A byte, a word or a pointer is a natural number, and the wrap-around of 32 and 64 bits
-- is written out (Prelude/Words.antt); the build is the 64-bit one, with `char` unsigned. An object is
-- the list of its bytes, and an access outside it makes the whole operation `none`, so that a theorem
-- whose result is `some` also states that no such access happens. Memory barriers and the accesses
-- `raw_in32` and `raw_out32` are plain reads and writes: one context runs at a time.
--
-- Fuel. `word_loop` of `memcpy` gets the remaining length, which each round lowers by eight. The loop
-- of `strstr` gets the length of the text and one more, since each round moves forward. The digit loop
-- of `printf_num` gets 65 rounds, the size of its buffer; a 64-bit value has at most 64 digits.
-- The loop of `vsnprintf` gets the length of the format's object, of which each round takes a byte.
-- The loop of `match_compat` gets the length of the name list and one more, since each round moves forward.
-- The loop of `error_int_handler` gets 32 rounds, the bits of `EISR0`, each of which is cleared once.
-- `tx` gets the values that LSR reads in turn, and ends in `none` when they run out.
-- The loop of `exclude_segment` gets 64 rounds, the size of the table, since each goes to the next index.
--
-- What is not modelled. Blocking reads and writes of the queue, which wait on the client's scheduler;
-- `strdup` and all that needs the allocator; the loops that call handlers until the interrupt controller
-- reports nothing; the hypercall wrappers, which are inline assembly; lib/stdio.c and `set_crashing`; the
-- waiting and the suspension of the line editor; assembly; lib/malloc.c, which is a copy of another
-- project's code.
pub mod Alloc
pub mod ByteChan
pub mod Console
pub mod Drivers
pub mod Errors
pub mod Mpic
pub mod Pamu
pub mod Prelude
pub mod Printf
pub mod Queue
pub mod Readline
pub mod Segments
pub mod Strings
pub mod Uart
