-- ===== src/Lib.antt =====
-- iu-sysprog holds the exercises of a course on system programming, with one student's solutions.
-- The programs with logic of their own are modelled here.
--
-- The shell, 2/solution. `shell_loop` reads a line, cuts it into tokens, groups these into commands
-- and runs the commands, one round for each line:
--   Shell/CharStack  stack.c: the character stack as a list; Shell/CharStack/Nodes as structs on the heap
--   Shell/Pair       pair.c
--   Shell/ReadLine   parser.c, `read_line`: the buffer and its bounds, quotes and continued lines
--   Shell/Lexer      parser.c, `parse_line`: quotes, escapes, operators, comments
--   Shell/Command    command.c, `parse_cmds`
--   Shell/Exec       solution.c, `add_name_to_argv` and `exec_cmds`: the system calls are a trace,
--                    and the answers of the system are a parameter
--   Shell/Loop       solution.c, `shell_loop`
-- The child modules hold the proofs, and are named for what they prove.
--
-- The sort of many files, 1/solution/solution.c:
--   Sorter/Merge, Sorter/MergeSort  `me_merge`, `me_mergesort` with the time that a coroutine counts
--   Sorter/Input                    `read_file`; the file is what `fscanf` makes of it
--   Sorter/Workers                  `get_file` and `intermediate`: coroutines that share the files,
--                                   and move in any order
--   Sorter/Output                   `write_result_to_file`
--   Sorter/Program                  the end of `main`: the arrays of all files are merged
--   Sorter/Main                     `main` from its arguments to the output
--   Sorter/Bag                      what the sort promises: a function of the bag of the numbers
--
-- The coroutines that this sort runs on, 1/solution/libcoro.c:
--   Coro/Store   the heap of coroutines, their list, `coro_new`, `coro_yield`, `coro_sched_wait`
--   Coro/Chain   the list that the links of the heap spell out
--   Coro/Rounds  whom a coroutine yields to, and what a round of `coro_sched_wait` returns
--   Coro/Scheduler  who runs: `coro_this_ptr`, `is_sched_waiting`, `coro_yield_to`, `coro_body`
--   Coro/Alloca     examples/coro_alloca.c, coroutines in an array: which one goes on
--
-- The heap checker, utils/heap_help/heap_help.c. The allocator that it wraps is outside: a call
-- carries the pointer that the allocator gave, and what the allocator promises is the relation `Does`:
--   HeapHelp/Counter, HeapHelp/Blocks  the count, against the blocks that are live
--   HeapHelp/Older                     the older checker, 2/solution/heap_help/heap_help.c
--   HeapHelp/Touch, HeapHelp/Lock      `heaph_touch` and its spin lock under every interleaving
--
-- Processes that work together, lecture_examples/7_ipc:
--   Ipc/Files, Ipc/Order       1_simple_sort.c: the numbers of the files, and the order of qsort
--   Ipc/SharedMem, Ipc/Bytes   3_mem_sort.c: bytes that two processes hand over through shared memory
--                              and two flags; every interleaving of their moves is a list of turns
--   Ipc/MemSort                the two messages of a worker, and the array of the parent
--   Ipc/Sems                   8_sem.c: transactions of operations on semaphores; at the end of the
--                              input `getline` leaves its buffer as it is
--   Ipc/Messages               9_sem_event_source.c and 9_sem_event_cons.c: how a message is packed
--   Ipc/Events                 the sources and the consumers of these two, and their semaphores; a source
--                              is taken before the end of its input
--   Ipc/Locks                  lecture_examples/9_aio/3_fcntl_lock.c: commands that write and lock
--   Ipc/Pipe                   2_parallel_sort.c, `read_from_pipe`
--
-- The servers, lecture_examples/9_aio; what the system answers is a script:
--   Net/Clients, Net/Serving   the loop over the clients that both have
--   Net/Select                 4_server_select.c
--   Net/Poll, Net/Polled       5_server_poll.c
--   Net/Watched                what becomes of the clients of the next two
--   Net/Epoll                  7_server_epoll.c
--   Net/Kqueue                 6_server_kqueue.c
--   Net/Daemon                 lecture_examples/10_users/9_daemon.c, the poll server as a daemon
--
-- The threads, lecture_examples/6_threads:
--   Threads/Interleave         schedules of threads round one lock, and what every schedule keeps
--   Threads/Futex              8_futex.c; the kernel may end a wait at any time
--   Threads/SpinLock           7_spin_lock.c
--   Threads/Condvar            14_condvar.c: signals and waiters
--   Threads/Detach             12_cthread_detach.c: who destroys or joins a thread, the stacks, main
--
-- Loops that are not structural run on fuel: one round more than there are bytes of a line, numbers
-- of a file, cells of an array, coroutines of a list, clients of a server or bytes of a message; a
-- round for each character of a stack; two moves for each file of the sort and one for each coroutine;
-- and for the scheduler more than there are events, which the theorems show to be enough.
-- Machine integers keep their wrap-around (the times, the counts of blocks and of switches), or the
-- overflow is an outcome of its own (the length of a file's buffer, the sum of the sizes of the
-- workers). Elsewhere an int is a number without a bound, and the theorems say where that is enough: a
-- round of the shell is bounded by the length of its input, the counter of the futex stays below 2^31,
-- and the indices of a sort stay below the number of cells of an array. The numbers that are read from a
-- command line or for a file lock are taken as they are written.
--
-- Not modelled: the times and the messages of the main of the sort, the switch of contexts below the
-- coroutines, the reordering of stores by a processor, the templates and tests of the other exercises,
-- and the lecture's examples of single system calls.
pub mod Prelude
pub mod Coro
pub mod HeapHelp
pub mod Ipc
pub mod Net
pub mod Shell
pub mod Sorter
pub mod Threads
pub mod Tests
