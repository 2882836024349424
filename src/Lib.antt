-- ===== src/Lib.antt =====
-- A verification library for the programs of book-src, the code of a book on the Linux programming
-- interface, and for two of the solutions under exercises. Each part of the library stands for one
-- program or helper of that code; what the kernel answers is given to it, as an argument or as a
-- list of answers, and a theorem holds for all of them within its hypotheses.
--
-- The parts:
--
-- Inotify: book-src/inotify/inotify_dtree.c, a program that keeps a cache of the pathnames of a
-- directory tree up to date from inotify events. Inotify.Cache is the array wlCache with its
-- operations (findWatch, findEmptyCacheSlot, addWatchToCache, markCacheSlotEmpty,
-- rewriteCachedPaths), Inotify.Roots the array rootDirPaths, Inotify.Tree the code that adds and
-- removes subtrees (watchDir, traverseTree, zapSubtree, reinitialize), Inotify.Event the handler
-- processNextInotifyEvent with a function for each of its branches, Inotify.Loop the buffer loop
-- processInotifyEvents, Inotify.Startup the checks of the command line (copyRootDirPaths),
-- Inotify.Command executeCommand, and Inotify.Main the options and main with its loop.
-- Inotify.Kernel is what the kernel and the file system do: they are parameters. Inotify.Run is
-- the outcome of a call: a value, an exit of the program, or a fault.
--
-- Sockets: the helpers around read() and write(), book-src/sockets/read_line.c (Sockets.ReadLine),
-- read_line_buf.c (Sockets.ReadLineBuf) and rdwrn.c (Sockets.Rdwrn), and the server is_seqnum_sv.c
-- (Sockets.Seqnum), which reads its requests with readLine; and inet_sockets.c (Sockets.Inet),
-- which looks for an address that it can connect or bind a socket to. A descriptor is the list of
-- what each read() or write() on it returns; where the list ends the call blocks. The caller's
-- buffer is a list, and a write past its end is a fault.
--
-- Tail: exercises/13-file-io-buffering/tail.c, which prints the last lines of a file; the file is
-- a list of bytes that does not change, read in blocks.
--
-- Malloc: the first-fit allocator of exercises/07-memory-allocation/malloc.c; sbrk() is a
-- parameter.
--
-- Svshm: book-src/svshm/svshm_xfr_writer.c and svshm_xfr_reader.c as one step relation, with the
-- semaphores of book-src/svsem/binary_sems.c. The totals that they print are left out.
--
-- Threads: book-src/threads/thread_multijoin.c (Threads.Multijoin) and prod_condvar.c
-- (Threads.ProdCondvar), step relations in which a section under the mutex is one step, and
-- waiting on a condition variable can end without a signal; and book-src/threads/one_time_init.c
-- (Threads.OneTime), whose section under the mutex is taken apart. Common.Steps has the runs of a
-- relation and the rule that an invariant of the steps holds in every run.
--
-- RegionLocking: book-src/filelock/region_locking.c; fcntl() is a parameter.
--
-- FilePerms: filePermStr of book-src/files/file_perms.c.
--
-- SvsemOp: book-src/svsem/svsem_op.c, with its parser parseOps, and main in SvsemOp.Main; strtol()
-- and semop() are parameters.
--
-- EventFlags: book-src/svsem/event_flags.c, flags on the value of a System V semaphore.
--
-- Acl: book-src/acl/acl_update.c, which changes the access control lists of files. Acl reads the
-- specifications of the command line, Acl.Entries and Acl.Update have findEntry, setPerms and the
-- loop over the entries, Acl.Main the options and the loop over the files. Acl.Library is libacl,
-- a parameter: its calls with what is documented of them.
--
-- Execlp: book-src/procexec/execlp.c, an implementation of execlp(); execve() is a parameter, as
-- are the answers of malloc() and realloc(), and the argument vectors keep the room that their
-- memory has.
--
-- Environ: book-src/proc/setenv.c, setenv() and unsetenv() on the list of strings of the
-- environment.
--
-- Timers: itimerspecFromStr of book-src/timers/itimerspec_from_str.c; atoi() is a parameter.
--
-- NsCapable: book-src/namespaces/ns_capable.c, which says what capabilities a process has in a
-- namespace. NsCapable has the walk over the ancestors of a user namespace with its descriptors
-- (is_ancestor_userns), NsCapable.Main the rest; NsCapable.Kernel is the kernel, a parameter, with
-- the rules of user_namespaces(7) as a relation.
--
-- UsernsChild: book-src/namespaces/userns_child_exec.c, which executes a command in new
-- namespaces. UsernsChild has its options, UsernsChild.Maps the map files (with
-- book-src/namespaces/userns_functions.c), UsernsChild.Capabilities and UsernsChild.Repeatable the
-- options that the child performs (with book-src/cap/cap_functions.c), and UsernsChild.Sync parent
-- and child as one step relation, with the pipe between them. libcap and the kernel's answers are
-- parameters.
--
-- Bounds: sizes and counters are natural numbers, and those with a width that matters keep it: the
-- size given to sbrk() modulo 2 ^ 64, the sequence number modulo 2 ^ 32, the fields of a semaphore
-- operation in 16 bits. Loops are structural recursion on a list of answers, of blocks or of
-- slots, but for the loop over the event buffer and the main program of inotify_dtree.c, which run
-- on fuel, and the loops that have a bound of their own, on what is left of it: the operations of
-- parseOps, the capabilities up to the last, the buffers of tail, with the theorem that they
-- suffice for a file of that many blocks, and the walk of ns_capable.c, whose 33 rounds suffice
-- for the 32 levels of user namespaces that the kernel allows. Two rounds for each byte of the
-- first read, and two more, are the fuel of the event buffer where every secondary read times out;
-- for other answers of the kernel no fuel is claimed to be enough, and what is stated of the whole
-- program is stated of runs whose rounds end within their fuel.
--
-- Not modelled: the other programs of book-src and exercises, most of which show one system call
-- and print what it answers, the printing and logging of the programs above, and failures of calls
-- whose only effect is that the program exits.
pub mod Acl
pub mod Common
pub mod Environ
pub mod EventFlags
pub mod Execlp
pub mod FilePerms
pub mod Inotify
pub mod Malloc
pub mod NsCapable
pub mod RegionLocking
pub mod Sockets
pub mod SvsemOp
pub mod Svshm
pub mod Tail
pub mod Threads
pub mod Timers
pub mod UsernsChild
