-- ===== src/Lib.antt =====
-- SO-Pr2-Synchronization: a simulation of memory allocation to processes, in programs that share
-- two files.
--
-- The memory is a JSON document in /tmp/mmapped.bin: an array of partitions, each with its
-- `free_space` and the `processes` that are in it. The waiting list is the document in
-- /tmp/mmapped_pro_on_waiting.bin. initializer.c creates both. producer.c makes a thread per
-- process: it enters itself in the waiting list, waits for the semaphore, leaves the list, searches
-- a partition with include/algorithms.c, takes its size from the free space there, sleeps outside
-- the semaphore, takes the semaphore again and gives the space back. killer.c stops the producer
-- and removes the files; spy.c prints both documents.
--
-- The files:
--   Base                 numbers, integers, lists, C strings and sums over the threads
--   Random               include/random.c: `random_number`; Random/Machine and Random/Ints are about
--                        ints of 32 bits
--   Json                 lib/parson.h: the calls of the JSON library as a record, and the laws that
--                        the programs rely on. Json/Reference is a library in which the laws hold,
--                        with which the tests run.
--   Algorithms           include/algorithms.c: `select_algorithm`, `search_index`
--   Files                `read_memory`, `write_memory` and their copies in producer.c,
--                        initializer.c and spy.c. Files/Torn has a write byte by byte, and what is
--                        read in the middle of it.
--   Memory               producer.c: the changes that `worker_thread` makes to the document
--   Worker               producer.c: `worker_thread`; `Worker.Points.Pc` is where a thread stands,
--                        and `Move` has a constructor for each access to shared state
--   System               producer.c: the threads of `main`, one step at a time in any order.
--                        System/Invariant says what holds at every moment; System/Effects,
--                        System/Prepared, System/Entries and System/Keeps, that each step keeps
--                        it; System/Safety, System/Progress and System/Ends, what follows;
--                        System/Listed, System/Live, System/Moves and System/Completes are about
--                        runs to the end; System/Races is about races on the waiting list,
--                        System/Torn about reads of half of it, System/Naming, System/Waiting
--                        and System/Orderly about runs without races. System/Glimpse is what
--                        another program finds in the memory, byte by byte, System/Watch is about
--                        the producer beside the spy, System/Shutdown
--                        about the producer beside killer.c, whose signal is handled at a later
--                        moment, and which may remove a file that a worker has open; System/Twins
--                        is about the producer started more than once. System/Exits has the ways
--                        in which the process of the producer ends; System/Session joins the
--                        initializer, the producer and the spy.
--                        System/Table is the abstract table of partitions, System/Abstract and
--                        System/Refines lead to it.
--   Initializer          initializer.c
--   Killer               killer.c: the prompt and the removal of the files
--   Ipc                  the calls on System V segments that the programs make, as documented
--   Control              producer.c: the preparations of `main` and the signal handlers, the same in
--                        examples/test_killer.c; killer.c: how it finds the process id.
--                        Control/Last is about the producer that was started last, beside what
--                        happens elsewhere; Control/Signals has the handlers call by call, while
--                        signals come.
--   Spy                  spy.c: the menu, `spy_memory`, `spy_on_memory`, `spy_on_waiting`
--   Experiments          examples/mmap/mapwrite.c, examples/mmap/mapread.c and
--                        examples/algorithms.c. Experiments/Entries: examples/producer_test.c and
--                        examples/mmap/mapreadjson.c; Experiments/Segments:
--                        examples/inicializador.c and examples/shmdemo.c; Experiments/Pair:
--                        examples/sem/psem.c and examples/sem/psem2.c; Experiments/Greeting:
--                        examples/server.c and examples/client.c, byte by byte; Experiments/Draws:
--                        examples/random.c; Experiments/Clock: examples/clock-example.c;
--                        Experiments/Documents: examples/mmap/mapwritejson.c;
--                        Experiments/Threads: examples/thread_test.c
--   Demonstration        main.c: the document that is built, and what is printed
--   Tests                runs and the theorems at concrete inputs
--
-- A function that can end the process returns a `Files.Result`; the answers of the operating system
-- are arguments (`Files.Syscalls`). A write of a file is two steps, from `open` with O_TRUNC and
-- then the rest, since another thread can read the file between the two. A read, and each of these
-- two steps, is taken to be indivisible in `Move`; Files/Torn has the second of them byte by byte.
-- The memory is read and written by the workers under the semaphore only, so that this makes no
-- difference among them; what the spy finds in it, and what an end of the process leaves in it, is
-- byte by byte in System/Glimpse and System/Exits. For the waiting list it makes one, except in the
-- runs of System/Orderly, and System/Torn is about that. A signal is handled in one step, except in
-- Control/Signals. The number of threads is any number, and a thread is one process of the
-- simulation; a step that would end the process is no step, and stands in System/Exits. The loop of
-- `search_index` runs on the rounds that are left, as many as the array has elements, and the loops
-- over typed input run on the list of what is typed; neither has other fuel. The loop of
-- examples/random.c runs on fuel, of which 30 is enough.
--
-- Bounds: ints are unbounded, except in Random/Machine and Random/Ints, which have what ints of 32
-- bits change of `random_number`, and except that the free space of a partition is assumed to be
-- below 2^31 where it is stored as a double and read as an int. `Json.IsLawful` says that a text
-- that is written is parsed to the same document; parson writes a number that is not whole with six
-- digits, so its values stand for the documents that the programs make, whose numbers are whole. A
-- file that fills its last page without a NUL is not modelled.
--
-- Not modelled: messages and logs; sleep and time in the producer, so that a thread may wake at any
-- moment; lib/parson.c and lib/slog.c, which are copies of other projects' libraries; binnacle.c,
-- which starts a pager; in examples, logger-example.c, which is a copy of the example of the log
-- library. examples/mmap/mapwritejson.c does not compile, since it frees a variable that it does not
-- declare; it is modelled as if it freed the document.
pub mod Base
pub mod Random
pub mod Json
pub mod Algorithms
pub mod Files
pub mod Memory
pub mod Worker
pub mod System
pub mod Initializer
pub mod Killer
pub mod Ipc
pub mod Control
pub mod Spy
pub mod Demonstration
pub mod Experiments
pub mod Tests
