-- ===== src/Lib.antt =====
-- The MOS kernel of BUAA_OS, its file system server, and the parts of lib/ and user/lib/ beside it.
--
-- The kernel owns the physical pages (kern/pmap.c), the environments with their identifiers and
-- address space identifiers (kern/env.c), and the queue of the environments that can run
-- (kern/sched.c, on the tail queues of include/queue.h). User programs reach them by the system
-- calls of kern/syscall_all.c, which also keep shell variables and the working directory. Pipes
-- (user/lib/pipe.c) live in pages that environments share. `printk` and `printf` stand on
-- lib/print.c. The file system server in fs/ is a program that answers messages: it keeps the
-- blocks of the disk in a cache (fs/fs.c over fs/ide.c) and a table of open files (fs/serv.c).
--
-- Base      lists, Boolean tests and bits, over the native natural numbers.
-- Run       how a kernel function ends (include/error.h): a result, an error code, a panic, or the
--           entry to user mode, from which it does not return. `try` is the bind.
-- Vm        kern/pmap.c and include/pmap.h. A `struct Page *` is the page's number, the memory is a
--           function from pages and word indices to words, `page_free_list` is the list of free
--           pages, and `flushed` records the calls of `tlb_out`. Vm.Pages, Vm.Walk, Vm.Mapping and
--           Vm.Insert hold the theorems.
-- Queue     Queue.Tailq is include/queue.h with its pointers to pointers; the list that a queue
--           stands for is Queue.Tailq.Links.
-- Kernel    the global state: `envs`, `curenv`, the two lists, the static variables.
-- Env       kern/env.c; Env.Asid and Env.Ids hold the theorems.
-- Sched     kern/sched.c and `env_destroy`; Sched.Rotate and Sched.Fair hold the theorems.
-- Syscall   kern/syscall_all.c; Syscall.Status and Syscall.Ipc hold the theorems.
-- Tlb       kern/tlbex.c, the refill of the TLB with allocation on demand; Tlb.Refill holds the theorem.
-- Elf       lib/elfloader.c, with its callback as a parameter; Elf.Image holds the theorem.
-- EnvValue  the shell variables and the working directory of kern/syscall_all.c.
-- Fs        the server's cache and disk: Fs.Ide is fs/ide.c; Fs.Block the block cache and the bitmap,
--           Fs.Inode the blocks of a file and Fs.Dir directories and paths, of fs/fs.c. A page is a
--           function from word indices to words, and a `struct File *` is a page and a word.
--           Fs.Init is the start of the server, `fs_init`. Fs.Ide.Copy, Fs.Block.Bits,
--           Fs.Block.Cache, Fs.Inode.Truncate, Fs.Dir.Create, Fs.Init.Mounted and
--           Fs.Dir.Path hold the theorems.
-- Serv      fs/serv.c: `opentab`, with the handlers and the loop in Serv.Requests; the answers that
--           were sent are part of the state. Serv.Held, Serv.Ids and Serv.Answers hold the theorems.
-- UserFile  user/lib/file.c over user/lib/fsipc.c: reading, writing, truncating and closing a file, with
--           the handlers of Serv answering the requests. UserFile.Transfer holds the theorems.
-- Fd        the descriptor table of user/lib/fd.c, with Fd.Table.
-- Pipe      user/lib/pipe.c.
-- CString   lib/string.c on a memory of bytes; CString.Copy and CString.Strings hold the theorems.
-- Fork      user/lib/fork.c: the page tables of the environments, the frames, and what the system
--           calls do to them; Fork.Private is the invariant, and Fork.Stores and Fork.Isolated hold
--           the theorems.
-- Shell     the tokens of user/sh.c; Shell.Lex is the lexer that they are compared with, which reads
--           on behind a quoted word, as the code does not, and Shell.Tokens holds the theorem.
-- Fsformat  tools/fsformat.c, which makes the disk of the server, with the recursion over the host's
--           files in Fsformat.Write. Fsformat.Boot holds the theorem on the server that starts on
--           such a disk, Fsformat.Links that on the links of a file. Fsformat.Reverse is the change of
--           byte order, with its theorem in Fsformat.Reverse.Twice.
-- Print     lib/print.c.
-- Tests     concrete states and runs.
--
-- Words are natural numbers below 2^32, with the wrap-around of the source written out; `pp_ref`
-- is a `u_short`, also where Serv counts the mappings of a page. The loops of `asid_alloc`,
-- `map_segment`, `env_free` and `page_init` have the
-- numbers of rounds of the source. The loop of `print_num` has 32 rounds, one for each bit of its
-- argument, and Print.Number shows that they suffice; the loop of `vprintfmt` is given more rounds
-- than the format has characters. The loops of `_gettoken`, `strlen` and `strcpy` have as many
-- rounds as the string may have characters. The loop of `walk_path` has a round for each character
-- of the path, and Fs.Dir.Path shows that they suffice. Block numbers are below 2^18, as
-- `read_super` checks, so that the byte offsets of fs/ide.c do not overflow.
--
-- Not modelled: the console and device accesses (the calls of `memcpy` on device memory are a
-- parameter), the assembly of kern/ and init/, `elf_from`, `load_icode` and `env_create`,
-- boot-time memory set-up, `open`, `create` and `remove` of user/lib/file.c, the calls of `fork`
-- that are not on pages, the other modules of user/lib/, the parser and the line editor of
-- user/sh.c, the other user programs, the other programs in tools/ and the checks in tests/.
mod Base
pub mod Run
pub mod Vm
pub mod Queue
pub mod Kernel
pub mod Env
pub mod Sched
pub mod Syscall
pub mod Print
pub mod Tlb
pub mod Elf
pub mod Fs
pub mod Serv
pub mod UserFile
pub mod Fd
pub mod EnvValue
pub mod Pipe
pub mod CString
pub mod Shell
pub mod Fork
pub mod Fsformat
mod Tests
