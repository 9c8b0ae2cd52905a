-- ===== src/Lib.antt =====
-- The programs of My-APUE, exercises and examples in UNIX system programming (my-src/): the
-- reference-counted objects and the message queue of chapter 11, the open server of chapter 17, the
-- input and output of chapter 14, the popen and the TELL_WAIT of chapter 15, the signal thread,
-- getenv and timeout of chapter 12, the daemonize of chapter 13, the retries and the remote uptime
-- of chapter 16, the system and the TELL_WAIT of chapter 10 and the ttyname and getpass of chapter
-- 18. Each is a program of its own; the open server uses the functions that pass descriptors, and
-- its server and that of the remote uptime use daemonize.
--
-- Prelude and Machine are shared: numbers, lists and C's int, and runs of C functions over an
-- explicit state, which end in a result, in undefined behaviour (fault), in a wait for a lock
-- (blocked), or without fuel.
--
-- Foo models my-src/Chapter-11/11-11.c and 11-12.c, whose foo_alloc, foo_hold and foo_find have the
-- same text. Foo/Table has its state (the heap of struct foo, the table fh, the lock of the table
-- and those of the objects) and one function for each of foo_alloc, foo_hold, foo_find, foo_release,
-- the thread functions and main, and the foo_release of 11-12.c. A use of NULL or of freed memory,
-- the unlocking of a free mutex and the destruction of a held one are faults. foo_release takes what
-- the other threads do, at the one point where it has let go of its lock and may still free the
-- object, as a parameter. Foo/Inv has the invariant IsTable: no lock is held, and every bucket is a
-- chain, without repetition, of allocated objects that hash to it. Foo/Chain and Foo/Unlink are
-- about chains and their predecessors, Foo/Steps about the locked sections, and Foo/Alloc, Foo/Find,
-- Foo/Release, Foo/Counts and Foo/Coarse about the operations. Foo/Unlocked has foo_hold and
-- foo_release of 11-12.c with what another thread does between the reading and the writing of the
-- count, where the two do not hold the same lock, and Foo/Unlocked/Races what comes of it.
-- Foo/Threads has all threads at once: a step is a section that one of them runs under a lock,
-- foo_release being two (Foo/Sections is about them), and the state counts the references that the
-- threads hold and the threads between the two sections. A step relies on a thread using only the
-- references that it holds, and on the mutexes, so that nobody comes in between; after the second
-- section has let go of the table's lock, nobody else has a pointer to the object that it frees.
-- Foo/Owned, Foo/Interleaved and Foo/Kept have the invariant, Foo/Safe what follows.
--
-- Open models my-src/Chapter-17. Open/Passing has send_err, send_fd and recv_fd (17-12.c, 17-13.c,
-- 17-14.c): a message is its bytes and perhaps a descriptor, and recv_fd runs on the list of what
-- recvmsg returns. Open/Clients has client_alloc, client_add and client_del (open-2/17-27.c) over
-- the globals client and client_size. Open/Request has the request that csopen writes
-- (open-2/17-25.c), buf_args (17-23.c), cli_args (17-24.c) and handle_request (17-31.c), with
-- strtok, atoi and %d in Open/Request/Text; a number that no int holds and a log_msg whose format
-- has a conversion make the request undefined. Open/Request/Served joins a request, its answer and
-- the receiver. Open/Csopen is csopen with its static csfd, the descriptors of its process and what
-- has been written on each, over Open/Connect and Open/Passing; Open/Csopen/Kept is about calls in
-- any number. Open/Connect has serv_listen, serv_accept and cli_conn (17-8.c, 17-9.c, 17-10.c) over
-- the descriptors, the files by path and errno; a name that does not fit into sun_path is a result
-- of its own. Open/Server has loop (open-2/17-29.c), one round at a time, over Open/Clients and
-- Open/Request: what is watched, maxfd and maxi, with the answers of select, serv_accept and read to
-- each round, and the descriptor that its log_msg opens for syslog, if it does; Open/Server/Entries
-- is about the descriptors in the client table, Open/Server/Laws has the invariant,
-- Open/Server/Rounds its preservation, Open/Server/Scans how far a scan of the clients has come,
-- Open/Server/Gone and Open/Server/Closes what a scan of the clients does. Open/Main is main of the
-- server (open-2/17-28.c): its options, daemonize, and the processes that go on to loop;
-- Open/Main/Started is about the start.
--
-- Open/First is the first version of the open server (open-1): its client starts the server as a
-- child, at the first csopen (17-19.c), and the two talk over a pipe of two ways. It has the
-- client's main (17-18.c), the server's (17-21.c), handle_request (17-22.c) and cli_args (17-24.c),
-- with lines and reads of at most MAXLINE bytes; Open/First/Start is about the descriptors at the
-- start, Open/First/Answers about one answer of the server, Open/First/Asks about what csopen makes
-- of it, Open/First/Lines about what fgets and read give, Open/First/Session about a whole run of
-- the client.
--
-- Io models my-src/Chapter-14. Io/Full has readn and writen (14-24.c), over a descriptor given by an
-- interface: the calls read and write, with what is documented of them as laws. Io/Rot has the
-- converter of 14-20.c over the same interface. Io/Async has the converter of 14-21.c: the eight
-- buffers, each unused, with a read pending or with a write pending, and the rounds of the main
-- loop, where the kernel says in which round an operation is over. Io/Async/Buffer and
-- Io/Async/Round have the invariant of the buffers and what a round does with it, Io/Async/Total the
-- whole run. Copy models the copy of a file through memory maps, 14-27.c of the same chapter: the
-- output is the bytes that the maps have written, by offset. Copy/Parts is about one map, Copy/Whole
-- about the whole copy, for any size of the maps.
--
-- Popen models my_popen and my_pclose of my-src/Chapter-15/15-12.c: childpid, maxfd and errno with
-- the descriptors of the process, the descriptors of the child when it starts the shell
-- (Popen/Child), and the answers of waitpid as a list. An index outside childpid is a result of its
-- own.
--
-- Tty models my_ttyname of my-src/Chapter-18/18-15.c: the list of directories from head to tail, the
-- entries of each and what stat says of them. Tty/Search is about one directory, Tty/Laws about the
-- whole.
--
-- Quit models my-src/Chapter-12/12-16.c as a step relation: where the main thread and thr_fn stand,
-- who holds lock, and quitflag. Quit/Places has the invariant, Quit/Safe that every step keeps it,
-- Quit/Live the steps behind the assignment.
--
-- Env models the three versions of getenv (my-src/Chapter-12/12-11.c, 12-12.c, 12-13.c), each in one
-- thread, with its buffer: Env/Lookup is about the search in environ, Env/Buffers about strncpy and
-- strcpy, Env/Laws about the functions. Timeout models timeout of 12-8.c as the list of what its
-- threads do, with the file's own SECTONSEC.
--
-- Msgs models the sections under qlock of my-src/Chapter-11/11-15.c over workq and the links of the
-- messages, and Msgs/Stack compares them with a stack; Msgs/Threads has the threads at the condition
-- variable qready as a step relation, and Msgs/Threads/Wakes is about which of them can go on. Retry
-- models connect_retry (my-src/Chapter-16/16-10.c) with the list of its waits.
--
-- Tell models TELL_WAIT and its kin (my-src/Chapter-15/15-7.c) over the bytes in the two pipes, and
-- Tell/Counts compares them with two counters. TellSignal models the same calls over signals
-- (my-src/Chapter-10/10-24.c), as a step relation of the process that waits and the signals of the
-- other: TellSignal/Wait has the invariant, TellSignal/Ends the bound on the steps.
--
-- System models mysystem of my-src/Chapter-10/10-26.c and mysystem2 of 10-28.c: the handlers of
-- SIGINT and SIGQUIT and the mask, in the caller and in the child, and the answers of waitpid as a
-- list. System/Runs compares the two. Getpass models getpass of my-src/Chapter-18/18-17.c: the
-- attributes of the terminal, what is typed and what it shows; Getpass/Reads is about its loop and
-- the whole call.
--
-- Daemonize models daemonize of my-src/Chapter-13/13-1.c as the fates of the caller and of the
-- processes that its two calls of fork make, with the descriptors and the attributes of each;
-- Daemonize/Daemon is about every run of it, Daemonize/Returns about one in which nothing fails.
-- Ruptime models the remote uptime of my-src/Chapter-16. Ruptime/Connect has connect_retry of
-- 16-11.c, which makes a socket for each attempt, and Ruptime/Attempts what it leaves;
-- Ruptime/Client the client (16-16.c); Ruptime/Service the server's loop over its clients (16-17.c),
-- where fgets cuts the output of uptime into pieces; and Ruptime/Server init_server (16-12.c,
-- 16-22.c), the loops over the addresses of 16-17.c and 16-18.c, and main of 16-17.c, which calls
-- daemonize. Ruptime/Stream and Ruptime/Shows join what is sent and what is shown, Ruptime/Start is
-- about the sockets that listen, Ruptime/Main about the whole server. Ruptime/Forking has the loop
-- over the clients of 16-18.c, with a child for each, and Ruptime/Forking/Agree compares it with
-- that of 16-17.c; Ruptime/Forking/Main has the main of 16-18.c, and Ruptime/Forking/Mains compares
-- the two servers from their start.
--
-- Fuel: the walks over a bucket take fuel above its length (one more than the objects ever allocated
-- in Foo/Threads), client_add two scans, as a scan after an allocation succeeds, buf_args more
-- rounds than the string has bytes, readn and writen as many rounds as there are bytes, the
-- converter and the copy through memory maps more rounds than the file has bytes, the asynchronous
-- one three rounds for each byte and one more, my_ttyname a round for each directory below /dev,
-- connect_retry 8 tests of its loop. Each result below says that its fuel is enough.
--
-- Not modelled: system calls are parameters (memory from malloc, the answers of sendmsg, recvmsg,
-- open, read, write, select, fork, waitpid, socket, bind, listen, connect, accept, recv, popen, mmap
-- and the asynchronous operations), and err_sys and its kin are ends of a run. The lines that
-- daemonize and the server of the remote uptime write to the log, the text of what the open server
-- writes to it, set_cloexec, and errno in these programs are left out. So is main of 12-8.c, which
-- sets up a mutex and calls timeout on a variable without a value. Most of the other programs of
-- my-src show one call of the system or of the C library each, with no state of their own, or wrap
-- one (the record locks of chapter 14, the terminal modes of chapter 18); the job queue of 11-14.c
-- does not compile. Of the rest, the walk of a file tree (4-22.c), the versions of sleep in chapter
-- 10, the coprocesses of chapter 15 and the datagram servers of chapter 16 are not modelled. The
-- directory original-src is a copy of the book's own distribution.
pub mod Prelude
pub mod Machine
pub mod Foo
pub mod Open
pub mod Io
pub mod Popen
pub mod Tty
pub mod Quit
pub mod Env
pub mod Timeout
pub mod Retry
pub mod Msgs
pub mod Tell
pub mod System
pub mod Getpass
pub mod Ruptime
pub mod Daemonize
pub mod TellSignal
pub mod Copy
