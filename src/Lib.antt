-- ===== src/Lib.antt =====
-- htmsql: benchmarks and MySQL sources for hardware transactional memory.
--
-- This library models three parts of the repository.
--
-- InnoDB, the storage engine of MySQL, in the variants that are changed for hardware lock elision
--   (mysql/mysql-5.6.10-*/storage/innobase):
--   Innodb/Event    os/os0sync.cc of the glibc variant: the events on which threads wait
--   Innodb/Mutex    include/sync0sync.ic and sync/sync0sync.cc of the beta variant: mutex_enter_func,
--                   mutex_spin_wait, mutex_exit_func and mutex_signal_object, as steps of threads that
--                   share a mutex. Invariant holds what every reachable state satisfies, Safety the
--                   theorems; in Unfenced the reset of the lock word is a plain store, which a
--                   thread may keep in its store buffer.
--   Innodb/Levels   the latching order of sync/sync0sync.cc under UNIV_SYNC_DEBUG: Order has the
--                   levels, Levels the arrays and the checks, Threads the two entry points
--                   sync_thread_add_level and sync_thread_reset_level, Queries the three queries of
--                   the latches a thread holds with their Answers, the other children the lemmas on
--                   the arrays.
--   Innodb/Elision  include/myrtm.cc and rtm_mutex_exit_func of include/sync0sync.ic in the variants
--                   syslock-rtm and trx_lock_func-rtm: rtm_lock and rtm_unlock around the mutex of
--                   Innodb/Mutex. Invariant holds what every reachable state satisfies, Exclusion and
--                   Race the theorems.
-- The mutex uses the events; the latching order is checked behind the
-- acquisition of a mutex and in front of its release.
--
-- sysbench, the benchmark driver (mysql/bench/sysbench-0.4.12/sysbench):
--   Sysbench/Options  sb_options.c: the table of options, with Size for sb_get_value_size and Config
--                     for read_config and write_config
--   Sysbench/Runner   sysbench.c: runner_thread, the loop of one thread over a test's operations
--   Sysbench/Fileio   tests/fileio/sb_fileio.c: the generators of requests (file_get_seq_request in
--                     Fileio, file_get_rnd_request in Random) and file_execute_request in Execute;
--                     Totals runs them in the loop of Runner, and Handed lists what it
--                     hands out. Blocks has the checksums of blocks and Create create_files;
--                     Arguments is parse_arguments
--   Sysbench/Memory   tests/memory/sb_memory.c: requests (Requests) and the accesses to the buffer
--                     (Bounds)
--   Sysbench/Cpu      tests/cpu/sb_cpu.c: the count of primes of one request; Requests has
--                     cpu_get_request as steps of any number of threads, Counted what they are handed
--   Sysbench/Mutex    tests/mutex/sb_mutex.c: the request of a thread and its rounds
--   Sysbench/Threads  tests/threads/sb_threads.c: requests and their actions on the locks
--   Sysbench/Oltp     tests/oltp/sb_oltp.c: Oltp has the data, the commands and the random ids, Requests
--                     oltp_get_request and the generators below it, Execute oltp_execute_request; Ids,
--                     Ends, Grown, Adds and Parts are what the proofs on requests are made of, Complex,
--                     Short and Answer the requests of the modes; Rounds, Loop and Counts are about
--                     executions, and Whole takes a transaction from its request to its end
--   Sysbench/Timer    sb_timer.c
--   Sysbench/Text     C strings as lists of character codes, with strcmp and strtok
--
-- The benchmarks of data structures under lock elision (hle and micro):
--   Hle/Run, Nodes, Chain, Find  commands on a heap, and chains of nodes in it
--   Hle/ItemList      hle/list: the doubly linked list of List.cpp; its children have the operations
--                     (Insert, Unlink, Search, Remove, Clear), the refinement of a sequence
--                     (Refinement) and PreAllocator.cpp
--   Hle/HashMap       hle/hashmap/HashMap.cpp: chained buckets; its children have the loops (Walk), the
--                     well-formed maps (Buckets, Holds), insert, remove and the destructor (Clear), the
--                     refinement of a set (Refinement)
--   Hle/Bank          hle/bank: run_object of time_cmp.cpp over ThreadsafeAccount.cpp with the lock of
--                     hle/lock_functions/atomic_exch_lock-spec.cpp, as steps of any number of threads;
--                     Invariant has the locks, Conservation the money
--   Hle/Locks         hle/lock_functions: the lock that LockType chooses, the loops on its word as steps of
--                     any number of threads (Exclusion), and rtm_lock_smart (Smart)
--   Micro/HashMap     micro/hash_map/HashMap.cpp: the map in transactions that are not repeated
-- The items of these live at addresses; NULL is 0, and an access where there is no item is a fault.
--
-- A function has the name of the C function. The static variables of a file are a record that is passed
-- along; a pointer to a list node is a position in a list; a call of abort() or a failed assertion is
-- none.
--
-- Memory. Every access of a thread to shared memory is one step, in one order for all threads. For
-- the mutex of InnoDB this takes the reset of its lock word as the memory barrier that its comment
-- promises, which it is not in the build with HAVE_HLE: Innodb/Mutex/Unfenced has it as a plain
-- store.
--
-- Bounds and fuel. Sizes read from options, sums of times, counters of bytes and of requests wrap
-- around at their width, which is written out. The lock word, the counts of an event, the positions
-- in a file and the counters that C keeps as signed numbers are not bounded. The loops that may not
-- end take fuel: read_values one unit for each pass (one more than there are values is enough for
-- quoted ones), runner_thread one for each round and memory_requests one for each call (the total
-- size in bytes, and one more, is enough when a block is not empty). The loops of a list and of a
-- bucket take one unit for each node and one more, the search of the pre-allocator one for each
-- slot, and create_files one for each byte of a file and one more. The loop over deadlocks in
-- oltp_execute_request takes one unit for each attempt; each attempt that fails is at least one
-- round, so one more than the rounds that may meet a deadlock is enough. That of rtm_lock_smart
-- takes one for each call of _xbegin; one more than max_retries is enough. That of the mutex test
-- takes one for each round, so as many as there are locks to take, or 2 ^ 32 where there are none.
--
-- Not modelled: the wait array of InnoDB, which is not in the repository and stands here with its
-- documented behaviour; the printing of warnings and statistics; floating-point scaling, which is a
-- parameter with the bound that it is used for; the calls of the operating system, which are
-- parameters; the asynchronous and mapped modes of fileio; the table, the prepared statements and
-- the arguments of the oltp test, for which the answers of the database are a parameter; the other
-- tests and the database drivers of sysbench; the variants of the list and of the hash map in
-- transactions (ListRtm.cpp, HashMap-rtm.cpp); the naive rtm_lock, the transactions of elided locks
-- and the pauses under hle/lock_functions, the measurements under hle and micro and what they print;
-- the tools of Intel. An allocator is a parameter that finds an unused address, and a transaction is
-- one step that the processor commits or not.
pub mod Prelude
pub mod Sysbench
pub mod Innodb
pub mod Hle
pub mod Micro
