-- ===== src/Lib.antt =====
-- Three programs of CSC369group: the kernel module that intercepts system calls (a1/interceptor.c),
-- the simulator of a paged memory with a swap file (a2/starter), and the tools for ext2 images (a3).
--
-- The kernel module. Interceptor/State has the kernel data that the module shares: the bookkeeping
-- `table`, `sys_call_table` and the page-table entry that protects it, the two spin locks, the saved
-- calls and the log. A C function is a command over that state. It returns with a result and a new
-- state, or it ends in `deadlock` (a lock that is held is taken) or `oops` (a write to a read-only
-- page, or a read through NULL). Interceptor/Pids has the list operations, Interceptor/Requests the
-- handler my_syscall with its four requests, and Interceptor/Module the functions interceptor and
-- my_exit_group, which take the place of system calls, with init_function and exit_function.
-- Interceptor/Invariant says what holds between calls, Interceptor/Reach gives the sequences of calls
-- as a step relation. Each definition has the name of the C function; where a branch has a name of
-- its own, a comment says which. What the kernel answers during a call (the caller, the owner of each
-- process, whether kmalloc succeeds) is the argument of type `Context`; NR_syscalls, __NR_exit_group
-- and the position of _PAGE_RW form `Config`.
--
-- The simulator. Paging/Machine has its global state: coremap, simulated memory, page directory, the
-- entries of the second-level tables by address, swap bitmap, swap file and counters. A C function
-- returns (`ok`), calls `exit`, or stops at an assertion or outside an array (`abort`).
-- Paging/Bitmap and Paging/Swap are swap.c, Paging/PageTable is pagetable.c with the functions that
-- print in Paging/PageTable/Printing as the lines that they print, Paging/Fifo has fifo.c and rand.c,
-- Paging/Clock, Paging/Lru and Paging/Opt the file of that name, Paging/Sim and Paging/Sim/Program
-- sim.c. Paging/PageTable/Tables and Lookup are about the page directory and its tables. Links, Order,
-- Touch, Raise and Ranks of Paging/Lru relate the links of lru.c to a list of frames. find_physpage
-- calls the chosen algorithm through `Functions`, as the program does through evict_fcn and ref_fcn;
-- `IsPolicy` of Paging/PageTable/Policy says what it relies on. Paging/Policies is about it for fifo.c,
-- rand.c and clock.c, Paging/Lru/Policy for lru.c. The swap file (mkstemp, lseek, read, write), the
-- trace files, getopt, strtoul, posix_memalign and random are parameters. The address of an entry
-- stands for the pointer to it; a frame in use always has one.
--
-- The ext2 tools. Ext2/Disk has an image as the globals of ext2_util.h give it: its bytes, of which
-- directory entries, pointers and file contents are read and written by address; the inode table, super
-- block, group descriptor and bitmaps, which are taken to stand in blocks of their own; and the two
-- copies of the bitmaps that the tools work on. Ext2/Bitmaps has get_free_bitmap, set_free_bitmap and
-- round_up, Ext2/Path the lookup of a path (check_entries_for_path, get_inode_from_path), on a view of
-- the image. Ext2/Tool has what the tools share: a tool is a function of the image that returns, ends
-- the program with a status and the image as it is then, or accesses memory outside its objects.
-- Ext2/Insert is the code that puts a new entry into a directory, which stands in ext2_mkdir.c,
-- ext2_ln.c and ext2_cp.c; what differs there is a parameter. Ext2/Insert/Tiles says when a block is a
-- list of entries, and Ext2/Insert/Search, Ext2/Insert/Lookup, Ext2/Ls/Listing and Ext2/Rm/Merge relate
-- the loops over a block to functions of that list. Ext2/Ls, Ext2/Mkdir, Ext2/Ln, Ext2/Rm and Ext2/Cp
-- are the tools, with main from the lookup of the path on, and Ext2/Commands is parse_cmd of the five,
-- with getopt as a parameter. The time is an argument, the same for all
-- calls of time in a run, and so are the results of fread. basename and dirname are taken to leave
-- their argument as it is.
--
-- Bounds. `unsigned` arithmetic of the bitmap wraps at 2 ^ 32, and so does the index into the page
-- directory, which has 4096 entries: an index beyond them stops the model. The traces of the simulator
-- are those of TRACE_64, with addresses of 36 bits. The loop of clock_evict runs on fuel
-- memsize + 1, since a round clears every reference flag, and each walk over the entries of a block on
-- fuel 1025, since an entry that has a length moves it on by at least one of 1024 bytes. remove_file
-- runs on fuel for the depth of the directories, which nothing bounds in the code. The loop of parse_cmd
-- runs for one round more than there are words from `optind` on, and calls getopt once more than there
-- are letters that it can take as options, which is enough. The other loops run for the number of
-- rounds that the C loop has. Counters of events are not wrapped.
--
-- Not modelled: swap_destroy, which closes and removes a file; the rates that sim.c prints, which are
-- floating point; the messages of usage, and what the ext2 tools print but for the listing; the image
-- reader of tut10, which only prints; and the programs that are traced or that test the module.
pub mod Prelude
pub mod Bits
pub mod Outcome
pub mod Interceptor
pub mod Paging
pub mod Ext2
pub mod Examples
