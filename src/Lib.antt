-- ===== src/Lib.antt =====
-- make-initrd builds initramfs images and holds the programs that run in them. This library models
-- C programs of the repository and proves what makes them correct.
--
-- Prelude (Prelude/Tests, Prelude/Lists, Prelude/Text): Boolean tests, lists and strings over native
-- numbers, shared by all parts. A C string is the list of its bytes without the zero.
--
-- Ueventd: features/runtime/src/ueventd, the daemon that runs a handler for each queue directory with
-- events in it. Watch has `struct watch`, the global variables as the record Daemon, and the functions
-- on the watch list (watch_path, unwatch_path, apply_pause, watch_queues, mark_queue_dirty). Timer has
-- update_timerfd and what it calls. Events has the handlers of the four descriptors, Loop the start of
-- main, its loop and the dispatch of workers, Worker the child process (queue-processor.c). A daemon's
-- run is a list of rounds; a round says which descriptors are ready, what they give and what the
-- kernel answers, so every order of events is a list. The worker and the daemon meet in the pipe, over
-- which a worker sends its watch descriptor, and in the queue directory. Keeps says what a predicate
-- on the state has to be closed under so that every handler, every round and the start keep it;
-- Balance gives the instance on `dirty_queues`. Safety, Dispatch, Pause and Retry have the results.
--
-- Udev: utils/udev-rules, the checker of udev rules. Keys has the tables of udev-rules.h and the
-- look-up of the scanner with the patterns that lead to it, UdevString the strings of udev-string.c,
-- State `struct rules_state` and the reports, Checks and Token the checks of udev-rules-parser.y
-- (process_token is Token and its children), Goto the file udev-goto-label.c, Rules the actions of the
-- grammar and the reading of files, Options the options and main of udev-rules.c. What bison and flex
-- generate is the list of actions that the parser runs. `list_sort`, a copy of the kernel's, is a
-- parameter. Keeps carries a predicate on the state through the whole program; Reports, Jumps, Legal
-- and Tables have the results.
--
-- Initrd: utils, the reader and the writer of initramfs images. Header and Read are parse_header and
-- read_cpio of initrd-cpio.c with the list of initrd-common.c, Write is write_cpio and write_trailer,
-- Decompress the choice of initrd-decompress.c, Stream the file initrd-parse.c with the decompressors
-- as a parameter, Extract the loop of initrd-extract/initrd-extract.c, Listing the widths and the mode
-- letters of initrd-ls/initrd-ls-format.c. A buffer is the list of its bytes; a read past its end is a
-- result of its own. Offsets have 64 bits and wrap. Bounds, Ends and Endless are about reading, Fields
-- about header fields both ways, Layout about writing, Columns about the widths.
--
-- Scanmod: utils/initrd-scanmod, the search for kernel modules by rules. Rules is
-- initrd-scanmod-rules.c, Match and Walk are initrd-scanmod-walk.c: the test of a module with what is
-- kept of it between sets of rules, and the walk with the queue and its workers. What libkmod answers
-- and compiled regular expressions are parameters; a step of a worker is one queue_pop or the
-- processing of the path that it holds, and the steps of all are a list, so every interleaving is one.
-- Chosen is about one module, Turns and Workers about the steps, Walked about what is printed, Loaded
-- about the sets of rules.
--
-- Environ: features/runtime/src/environ, the tool that prints and reads the environment. Show is
-- show_environ, Load is set_environ, Printed is about the two together. Unset is unset_environ, and
-- Matched is about its patterns.
--
-- Put: utils/initrd-put, which copies files with what they need into a tree. Queue is queue.c and
-- tree.c: the files are objects at addresses, with the pointers that the C code has. Copy is
-- install_file of initrd-put.c with the system calls as a record of functions, Rounds the rest of the
-- installation: classify_file, install_hardlink, apply_permissions and the rounds of main with one
-- worker. Path has enqueue_canonicalized_path, and Resolved is about it. Linked, Search, Front and
-- Refines are about the queue, Copied, Installs, Settled and Parents about the installation.
--
-- Depinfo: utils/depinfo, which shows what a kernel module needs. Firmware, Builtin and Walk are parts
-- of kmod-depinfo.c: the search for firmware, the entries of modules.builtin.modinfo, and the walk
-- over the dependencies. libkmod, fnmatch, access and glob are parameters. Candidates is about the
-- search for firmware, Search about the look-up of built-in entries, Keeps about what the walk keeps,
-- Once and Tracked about the modules that are shown, Ends about its end.
--
-- Fuel: read_loop has as many rounds as the archive has bytes, and each round over a header whose
-- sizes have no sign moves on by more than 110 bytes. The loops that pad have 4 and 512 rounds. The
-- loop of read_stream has a fuel argument and an outcome of its own for when it runs out. The loop of
-- set_environ has a round for each byte of the file and one for its end. A loop that copies a file of
-- n bytes has n + 1 rounds, since each round before the last moves a byte. The resolution of a path
-- has a round for each byte of the name and of 20 links that fit the buffer. The fuel of depinfo
-- bounds how deep its calls nest, and the state says whether it was enough; one level more than there
-- are paths is. The same flag says that a look-up goes around for ever in the list of entries with
-- aliases.
--
-- Not modelled: allocation failures, log texts, the clean-up before exit, the decompressors, the
-- kernel's list library, the automata of bison and flex, and other programs and parts (what fills the
-- queue of initrd-put, its workers that install side by side, the rest of depinfo and of initrd-ls,
-- ueventd-mounts, those derived from klibc), the features and guess modules in shell.
--
-- Tests has the theorems at concrete inputs.
pub mod Prelude
pub mod Ueventd
pub mod Udev
pub mod Initrd
pub mod Scanmod
pub mod Environ
pub mod Put
pub mod Depinfo
mod Tests
