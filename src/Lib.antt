-- ===== src/Lib.antt =====
-- tcp-epoll: a C++ library for TCP and UDP connections over epoll. A user makes a link with a
-- callback and gets a handle; a worker thread waits on an epoll set and calls the callbacks.
--
-- What is modelled, by file:
--
-- - Kernel: the operating system as the sources use it. A call of the kernel is recorded, and its
--   answer is the next one of a stream that is a parameter of every state, so that a theorem holds
--   for all answers.
-- - StdMap, StdMap/Order: std::map as an association list with ascending keys.
-- - Exec: programs on a state, their outcomes and postconditions. Ensures: the run ends, with such a
--   state. Allows: it crashes not, and if it ends, it ends so.
-- - Tcp/State, Tcp/Monad: include/tcp-link.h, include/ms-epoll.h, include/ms-epoll-tcp.h. The state
--   has the static members of MsTcpLink, the globals, the singleton, and a store of link objects by
--   address: the counted pointers of the sources are addresses.
-- - Tcp/Registry, Tcp/Callback, Tcp/Sockets, Tcp/Link, Tcp/Events: tcp-link.cpp, one function for
--   each method (find_link, del_link, link_create, link_connect, on_event_read, ...), with helpers
--   for the bodies of their branches and loops.
-- - Tcp/Epoll, Tcp/Worker: ms-epoll.cpp. worker_round is one turn of worker_thread's loop, with the
--   answer of epoll_wait as its argument.
-- - Tcp/Api: ms-epoll-tcp.cpp, the functions that a user calls.
-- - Udp/State, Udp/Monad, Udp/Registry, Udp/Link, Udp/Send, Udp/Worker, Udp/Api: the same for
--   udp-link.cpp, udp-ms-epoll.cpp, ms-epoll-udp.cpp and their headers. Udp/Send has the queue of
--   datagrams that the kernel could not take.
-- - Tcp/Race: MsEpoll::end, worker_thread and timeoutThreadProc (ms-epoll.cpp) as three threads, with
--   their steps.
-- - Thread: ms_pthread_creat of ms-epoll.cpp, of which udp-ms-epoll.cpp has a copy.
-- - Tcp/Sleep: ms_msleep and timeoutThreadProc of ms-epoll.cpp.
-- - Guard: CRefCountPtr of include/Guard.h, as counters in a memory.
-- - Tcp/Valid and below, Tcp/Delivery, Tcp/Handles, Tcp/Teardown, Tcp/Idle, Tcp/Start,
--   Tcp/Errors, Udp/Queue, Udp/Start, Udp/Teardown, Udp/Valid and below, Guard/Counted, Guard/Assign,
--   Thread/Attributes: proofs. The files called Tests and RaceTests: concrete states.
--
-- The samples, of which each has copies of the same helpers:
--
-- - Timer: TimerQueue of samples/samples-client/timer-queue.cpp. Timer/Order: the order of the set.
--   Timer/View, Timer/Refine: the map from ids to timers that it implements.
-- - Tasks: TaskQueue and ThreadQueue of samples/samples-client/include/task-queue.h and
--   thread-queue.h, from one release of the mutex to the next. Tasks/System: the workers and their
--   callers in any interleaving, with the condition variable. Tasks/Pool: TaskThread of
--   task-thread.cpp. Tasks/Deadline, Tasks/Order, Tasks/Exit, Tasks/Wake: proofs.
-- - Wire, Wire/Parse, Wire/Pack: ms_endian, parse_req and pack_resp of
--   samples/samples-server/include/ms_endian.h and net-memory-io-base.h. Wire/Finds, Wire/Entries,
--   Wire/Safe: proofs. Wire/Reads: the readers that structures are made of. Wire/Collections: arrays,
--   sets and maps of strings; Wire/Collections/Finds, Wire/Collections/Safe: proofs.
-- - Packet: the messages of net-packet.h that the link managers read and write, and parse_packet and
--   parse_data of comm-func.h. Packet/Reads, Packet/Writes, Packet/RoundTrip, Packet/Safe: proofs.
-- - Stream: do_post_recv_buff and handle_recv_buff of link-mgr.h, which cut the bytes of a link into
--   packets. Stream/Frames, Stream/Order, Stream/Pieces, Stream/Overread, Stream/Ends: proofs.
-- - Server: TcpIOCallbackFunc of net-handler.h and the links of LinkMgr. Server/Silent: what becomes
--   of the bytes that the library reads for such a server. Server/Handler: the requests of a link,
--   of samples/samples-server/test-client-handle.cpp, and LinkHdr::send_packet. Server/Response,
--   Server/Answer: their answers.
-- - Client: the receiving side of Test_Client, of samples/samples-client/test-client.cpp, and its
--   TcpIOCallbackFunc, of samples/samples-client/include/net-handler.h; its loop over
--   the bytes is that of Stream. Client/Receives: what it has done with a number of packets.
--   Client/Silent: what becomes of the bytes that the library reads for such a client.
--
-- How the parts interact: the interface finds a link by its handle in the registry and calls its
-- methods; these call the kernel, the epoll set of the singleton, and the callback. The worker
-- thread finds links in the same way and calls their handlers of events.
--
-- Rounds: the loops of on_event_accept and on_event_read go on until the kernel has no more. They
-- take a number of rounds, and a run that needs more has the outcome spin. For on_event_read the rounds
-- are enough when they are more than the chunks that the kernel has. The outcome exhausted is that of a
-- counter of handles at INT_MAX, whose increment is undefined in C++; crash is a call through a NULL
-- callback, or a copy from NULL.
--
-- handle_recv_buff takes a round for each byte of the buffer and one more, which is enough. An
-- access beyond the buffer is a crash, or overread, or beyond, by the component. The loop that saves
-- a request takes a number of rounds, which is enough when it is larger than the length of the
-- string and each call of fwrite takes a byte or more.
--
-- Not modelled: the log (its calls change nothing here, but ms_log and printf are not verified);
-- memory for the buffers, which never runs out; a callback that calls the library again, and
-- threads that interleave within a function: each function that holds m_link_lock throughout is one
-- step, and a handler is one step with respect to the user's calls. `errno` and the clock are
-- answers of the kernel. inet_addr and gethostbyname are calls with answers, of which the first
-- address is read, as four bytes. Of the samples: the other messages of net-packet.h, which nothing
-- reads or writes; parse_req and pack_resp over a std::vector; what broad_cast sends; how the
-- client connects, and the requests that it sends; the programs that print. Buffers are shorter
-- than 2 GB.
pub mod Prelude
pub mod StdMap
pub mod Kernel
pub mod Client
pub mod Exec
pub mod Guard
pub mod Thread
pub mod Timer
pub mod Tasks
pub mod Wire
pub mod Packet
pub mod Stream
pub mod Server
pub mod Tcp
pub mod Udp
