-- ===== src/Lib.antt =====
-- A verification library of the operating-systems exercises: programs in C over files, message
-- queues, shared memory, semaphores, threads and sockets.
--
-- The parts do not call each other; each is a program, or two that talk to each other.
-- * cw07/zad1, the barber shop. Hairdresser/Fifo.antt is the ring of waiting clients in shared
--   memory (fifo.c); Hairdresser/Shop.antt is the barber (barber.c: startWork, takeChair, cut) and
--   any number of clients (breeder.c: getCut, takePlace), one system call or one access to the ring
--   at a time, in any order. Hairdresser/Posix.antt is the same shop over POSIX semaphores
--   (cw07/zad2), whose fifo.c has the same text.
-- * cw09, readers and writers of a table. Table.antt has what both variants do with the table,
--   Table/Mutex.antt the variant with a mutex and a condition variable (zad1a/main.c),
--   Table/Semaphores.antt the one with semaphores (zad1b/main.c).
-- * cw02/zad1, files of records. Records/Io.antt is the interface of an open file, and
--   Records/Handles.antt fills it for descriptors and for streams; Records/Bsort.antt is bsort.c,
--   Records/Shuffle.antt shuffler.c, Records/Generate.antt generator.c, Records/MakeTest.antt the
--   test run of maintime.c, and Records/Main.antt the command line of main.c, over the named files
--   of Records/Disk.antt.
-- * cw06, a server of strings and its clients. Queues/Message.antt has the messages (inf.h,
--   infposix.h), Queues/Text.antt the work on strings, Queues/Sysv the server and client of zad1,
--   Queues/Posix those of zad2.
-- * cw10/zad1, a server that sends sums to its clients over stream sockets. Sockets/Clients.antt
--   is the table of clients of server.c, Sockets/Server.antt a command and a received message
--   there, Sockets/Events.antt what one event there leads to, Sockets/Client.antt the client
--   (client.c), and Sockets/Message.antt what they send (deff.h).
-- * cw10/zad2, the same server over datagram sockets: Datagrams.antt is server.c, on the table and
--   the messages of zad1, whose text it repeats.
-- * cw02/zad3, bytes of a file read, overwritten and locked by typed commands: Locks/Calls.antt has
--   lockRequest, readf, overwrite and printLocks, Locks/Command.antt the loop of main.
-- * cw03, an interpreter of files of commands. Batch/Strtok.antt is strtok of the C library,
--   Batch/Environment.antt setenv and unsetenv, Batch/Parse.antt takes a line apart, Batch/Run.antt is
--   the program of zad1 and Batch/Limited.antt that of zad2, which shares its parsing.
-- * cw05/zad1, a line of commands with pipes between them: Pipes.antt is exec_line and exec_cmd.
-- * cw08/zad1, threads that search a file for a word: Search.antt is run and the threads of main.
-- * cw04/zad2, a parent that answers requests of its children by signals: Permissions.antt.
-- * cw05/zad2, random points and how soon each leaves a circle: Mandelbrot.antt is slave.c, the
--   program that the master starts and reads from.
-- * cw04/zad3, signals that a parent sends and its child answers: Signals.antt.
-- * cw04/zad1, letters printed in a circle that a signal turns round: Letters.antt.
--
-- A record stands for the global variables of a program, a function by clauses for a C function,
-- and an indexed data type for the steps of threads and processes; names are those of the source in
-- another spelling. Calls that exit, and accesses out of an array, are values of a result type.
-- Base.antt and its children have the shared arithmetic, lists and sums over threads.
--
-- The loop of cw02/zad3 has rounds as fuel, and as many as there are words typed are enough; the
-- loop over the tokens in cw03 has one unit more than the line has bytes, of which every token takes
-- one. The other loops are structural: over the records left, the rounds left, or the clients
-- counted. close_loop has `count` rounds, which are enough since the counter only falls;
-- bubble_sort counts down the records to sort, as `n` does in the source.
--
-- Parameters stand for what the source does not define: the results of rand, the bytes of
-- /dev/urandom, the names that fopen creates, atoi, mq_open, fcntl and the numbers that scanf
-- reads, what the commands of a batch do, the bytes behind a variable that hold nothing else, what
-- lies in memory behind a buffer without a terminator, the spare entries of the allocator's blocks,
-- the text of the numbers that sprintf prints and of the time, the arithmetic of floats and
-- doubles, and the calls of close and write that fail. Left out are failing system calls that only
-- print and exit, signals that end a program, printing and timing, and the `int` overflow of file
-- offsets, which the sizes that the programs use stay below. Not modelled are the programs
-- cw02/zad2 and cw08/zad2, the master of cw05/zad2, the generator of cw08/zad1, the loop over the
-- events of cw10/zad1, and the client of cw10/zad2, which has the text of zad1 but for its socket.
pub mod Base
pub mod Batch
pub mod Datagrams
pub mod Hairdresser
pub mod Letters
pub mod Locks
pub mod Mandelbrot
pub mod Permissions
pub mod Pipes
pub mod Queues
pub mod Records
pub mod Search
pub mod Signals
pub mod Sockets
pub mod Table
