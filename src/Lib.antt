-- ===== src/Lib.antt =====
-- CS392: a model of the C programs of the repository and what is proved of it.
--
-- The programs are course work in C: a chat server and client over TCP, sorting, sieves, process
-- and thread exercises. Each part modelled here is translated function by function, with the names
-- of the source in snake_case. Numbers are the native naturals; a C `int` that may be negative is
-- `ℤ` (`pos n`, `negsuc n` for -(n + 1)). A C string is the list of its bytes before the '\0'.
--
-- hw7/util.h is Util: `is_integer`, `parse_int` with sscanf's `%lld` (saturating at the range of
-- `long long`, then cut to 32 bits), and in Util/Input `get_string` over an interface `Stdin` for
-- what `read` answers. Util/Show prints decimals, Util/ParseInt holds parsing against printing,
-- Util/Input/Terminal instantiates the interface by a terminal that hands out lines. The loop of
-- `get_string` runs on fuel, one more than the bytes left, since each read takes at least one.
--
-- hw7/chatserver.c is Server. Server/State has the globals as a record; `client_sockets[i]` and
-- `usernames[i]` are slot `i` of one list; `inbuf` and `outbuf` are the strings they hold, and a
-- write or read outside an array is the result `out_of_bounds`. Calls of `send` and `close` are
-- logged. Server/Messages builds the texts, Server/Handlers has the handlers, `disconnect_client`
-- and `cleanup`, Server/Loop the main loop and `main`, run over a list of rounds: each says what
-- `select`, `accept` and `recv` answer and at which tests `running` is found false. `FD_SET` of a
-- descriptor that is not below FD_SETSIZE writes outside the set. What is printed on stdout and
-- stderr, and the clean shutdown's delay, have no model. Server/Invariant, Texts, Welcome,
-- Handling, Serving, Select, Delivery and Faults are the proofs.
--
-- 392/Quciksort/quicksort.c is Quicksort, over the interface `Array` of Quicksort/Array, which
-- Quicksort/Memory fills with `swap` byte by byte on a memory of bytes. Where the source passes
-- `right`, the model passes `stop = right + 1`, since `right` may be -1. The recursion runs on
-- fuel, one more than the length of the segment, since each call's segments are shorter.
-- Quicksort/Compare has the comparators, Partition, Tally and Sorted the proofs.
--
-- hw7/chatclient.c is Client. Client/State has what the client keeps, sends and prints,
-- Client/Calls the four helpers, Client/Loop `main` with the question for a user name, the
-- connection and the main loop, run over a list of rounds as in Server; standard input is the
-- interface `Stdin` of Util/Input. The question for a name runs on fuel, the number of questions;
-- one more than the lines that are refused is enough. Bounds, Ending and Whole are about the
-- loop's buffers, its end, and `main`.
--
-- mtsieve/mtsieve.c is Sieve: the file itself has `sieve` loop by loop, on arrays as functions of
-- the index, with what `malloc` leaves in `low_primes` as a parameter, and the segments;
-- Sieve/Main has the options, checks and the total. `double` is exact for the numbers of `int`, so
-- `ceil(sqrt(b))` and `ceil((double)a / p)` are whole-number functions. A loop runs on fuel that
-- is at least its number of rounds. Low, High, Primes, Digits, Count, Segments, Total, Whole and
-- Accepted are the proofs. Sieve/Overflow follows the additions `i + p` in the segments and
-- `end + 1 + thread_length` in `main`, and an overflow of `int` is a result of `main`; Fits says for
-- which ranges there is none.
--
-- 392/producerconsumer/produceconsume.c is Queue: its file has the state that the threads share
-- and one step of one thread as an indexed data type, a constructor for each call that blocks and
-- for each body under the mutex; Queue/Fifo and Queue/Exclusion are the invariants.
--
-- 392/lab 3/linked_list.h and node.h are LinkedList: a heap from addresses to nodes, with `next`
-- and `prev`. LinkedList/Shape says which addresses a list runs through; Link, Insert and Order
-- are about `insert_in_order`, whose loop runs on one more than `num_nodes`.
--
-- 392/lab 5/permstat.c and 392/PermissionFinder/pfind.c are Permissions: the string of a mode, and
-- the bits of a string. Permissions/Walk is the walk of pfind over a tree of what `readdir` and
-- `lstat` answer, Found says which paths that is, and Options has `main`. Paths are shorter than
-- PATH_MAX. `main` of permstat only prints.
--
-- mpsumarray/semaphore.c is Semaphore: the five calls over the value of the semaphore, where `P` is
-- `down` and `V` is `up`. Semaphore/Adders has processes that add to a shared number between the
-- two, one step at a time, with the read and the write of the number apart; Balance and Lives are
-- the invariants. mpsumarray/mpsumarray.c is SumArray: the file has `sum_array` and the steps of
-- `main` between `*sum = 0` and its report, SumArray/Cleanup has `main` with what each call answers
-- and its cleanup section. sharedmem/sleepingprocesses.c is Sleeping, built the same way. `P` and
-- `V` are taken to succeed while the semaphore exists; the results that the code ignores are
-- ignored in the model. The fuel of the summing loops is the length of the array.
--
-- 392/LinkedList/linked_list.h and main.c are Deque, on the heap of LinkedList: Deque/Ends is about
-- the links, Deque/Drain about the sequence of values. Where the source tests `list->head`, an
-- operation is a function by clauses of that pointer. Loops run on `num_nodes`.
--
-- 392/minishell/version2/minishell.c is Shell: the buffer is a function of the index, a pointer into
-- it an index, and `args` a function to slots that may never have been written. Shell/Words says
-- what the words of a line are, Shell/Parse is about `parse`, Shell/Rounds about the main loop.
-- `getpwuid` and `chdir` are what they answer; that a command runs is one result. The loops of
-- `parse` run on one more than the bytes of the line. The prompt, the signal handler and `fork`
-- have no model.
--
-- 392/Quciksort/sort.c is SortFile, over Quicksort, with an array of values in place of the bytes
-- and a string in place of the pointer to it: SortFile/Lines is about the lines read, Sorted about
-- what is printed. The file is what `fopen` answers, and the loop over it runs on its length.
--
-- 392/Creadins/readints.c is ReadInts, with the reading of lines of SortFile and the `is_integer` of
-- Util; ReadInts/Numbers says what is printed. 392/lab 4/head.c is ReadInts/Head: `getopt` and `open`
-- are what they answer, and a result says which statement the program comes to.
--
-- lab 10/mtsumarray.c, of which 392/lab 10 has a copy, is ThreadSum, on the states and the steps of
-- SumArray: the mutex is a semaphore of 1, `pthread_create` stands where `fork` does, and `main` joins
-- the threads in their order. ThreadSum/Total is about the sum, ThreadSum/Progress about what keeps
-- the threads going, and ThreadSum/Progress/Ends counts the steps that are left. Locking and
-- unlocking are taken to succeed, and so is joining a thread that was created.
pub mod Prelude
pub mod Util
pub mod Server
pub mod Quicksort
pub mod SortFile
pub mod ReadInts
pub mod Client
pub mod Semaphore
pub mod Sieve
pub mod SumArray
pub mod ThreadSum
pub mod Sleeping
pub mod Queue
pub mod LinkedList
pub mod Deque
pub mod Permissions
pub mod Shell
