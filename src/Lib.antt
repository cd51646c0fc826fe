-- ===== src/Lib.antt =====
-- sylar_leo: a C++ server framework. Its core is a coroutine scheduler: fibers
-- (sylar/fiber.cpp) run on the threads of a scheduler (sylar/scheduler.cpp), which an I/O manager
-- (sylar/iomanager.cpp) extends by epoll events and by the timers of a timer manager
-- (sylar/timer.cpp). The hooked system calls (sylar/hook.cpp) make blocking calls wait in that manager.
-- What is sent and received is laid out in a ByteArray (sylar/bytearray.cpp) or parsed as HTTP
-- (sylar/http).
--
-- ByteArray models the chain of blocks of sylar/bytearray.h: the field `chain` is the list of blocks
-- along `next`, `cur` is `m_cur` as a place in it. A call is a function from a ByteArray to an outcome:
-- a value and the ByteArray after it, `std::out_of_range`, or undefined behaviour (the null `m_cur`
-- is read). ByteArray/Codec has the typed writes and reads. The byte order of the host and what new
-- memory holds are parameters. Numbers are those of ℕ; an integer of the source with a width wraps
-- where the source's arithmetic can. The varint loops have as many rounds as their local array has
-- bytes, or as their `i` has values.
-- ByteArray/Chain has lemmas on the loops, Validity the invariant, Writing and Reading the raw
-- operations, Buffers the scatter lists, Codec/Words the integers as bytes, Codec/Stream and Codec/Replay what a write followed
-- by `setPosition` and a read does, Codec/Varint and Codec/Strings the values of variable length.
--
-- Timer models sylar/timer.h: timers by address in a heap, and the set ordered by the comparator as
-- the list of its addresses. The clock and the address of a new timer are arguments. Timer/Order is
-- about the comparator and the set, Timer/Manager about the methods on single timers, Timer/Expiry
-- about those on the set.
--
-- Fiber models the state, callback and assertions of sylar/fiber.h; Fiber/Life has the step relation of
-- what the scheduler and a fiber do to it. Scheduler models the queue of sylar/scheduler.h and one
-- round of the loop in `run`: what the resumed fiber leaves behind is an argument.
-- Scheduler/Queue is about the queue, Scheduler/Rounds about the round.
--
-- IoManager models the contexts of sylar/iomanager.h and the count of pending events; the result of
-- each `epoll_ctl` is an argument. IoManager/Pending has the invariant, Adding and Removal the
-- operations, Idle the loop of `idle` on the timers, the scheduler and the contexts together. The modules named Examples hold runs on small inputs.
--
-- FdManager models the context of a descriptor and the table of sylar/fd_manager.cpp. Hook models the
-- system calls of sylar/hook.cpp that give the fiber's turn away: `do_io` runs on the list of what its
-- turns meet (the answer of the call, what addEvent answers, what wakes the fiber) and returns its
-- actions in order with the result; Hook/Calls has the calls that read or change the table of FdManager.
-- Hook/Io is about do_io, Hook/Calls/Flags about fcntl, Hook/Calls/Timeouts about how the calls that
-- change the table act on later ones. Recursion is on the list, so that no fuel is needed.
--
-- Stream models the loops readFixSize and writeFixSize of sylar/stream.cpp over a `read` or `write` that
-- is a parameter, with as much fuel as there are bytes. Sizes are those that an `int` can return.
--
-- Http models sylar/http: Names the methods and statuses, Headers the map with its comparison (Order the
-- comparison, Replay sequences of calls), Params the parsing of queries and cookies, with as much fuel as
-- there are characters, Message requests and responses, Servlet the dispatcher (Table its two tables,
-- Matching its choice), Connection the client's requests and its pool of connections (Host, Pooling),
-- Session the receiving of a request over the generated parser, which is a parameter, Server the loop of
-- sylar/http/http_server.cpp over the requests that it receives, Response the receiving of a response, on
-- fuel for its reads and its chunks, since a peer may send without end; Response/Chunk is about one chunk.
--
-- Socket models sylar/socket.cpp: a Socket is a value, and the open descriptors and their options are a
-- System beside it, so that what a call opens and does not close is seen; the answers of the system are
-- arguments. Socket/Holding is about the descriptors, Calls about sequences of calls and `accept`,
-- Transfer about sending, receiving and time-outs, Secure about SSLSocket, and
-- Streaming about sylar/streams/socket_stream.cpp, where a ByteArray is sent or received over a Socket
-- (its memory in ByteArray/Scattering, Offering and Filling). TcpServer
-- models sylar/tcp_server.cpp on sockets that share a System; TcpServer/Binding is about `bind`,
-- TcpServer/Accepting about the loop of `startAccept`.
--
-- Config models sylar/config.h and sylar/config.cpp: variables, their listeners, the registry and the
-- loading of a YAML node. The values are those of one type with a number for the type in the source, and a
-- listener acts on a state that is a parameter, and returns or throws. Config/Yaml has the nodes and what is used of yaml-cpp,
-- Loading and Changes the theorems, Casts the conversions of containers.
--
-- Address models the order of addresses and the masks of sylar/address.cpp (Subnet for IPv4, Ipv6
-- for IPv6, with the text of an address); a shift with no defined
-- value is a result of its own. Log models the levels and the pattern parser of sylar/log.cpp, on as much
-- fuel as the pattern has characters; Log/Pattern shows that this is enough. Log/Format has what the items
-- write, and Log/Loggers has the loggers, their appenders and the manager, Files the file appender, Defines the variable `logs` with its listener
-- (Applying; Equality and Syncing for the variable and the loggers together) and its conversions (Casts,
-- Reading). Util models URL encoding and trimming of sylar/util.cpp.
--
-- Mutex models the scoped locks of sylar/mutex.h by what they call on their mutex.
--
-- Base has what the parts share: Boolean tests on ℕ, lists over ℕ, text as lists of bytes, maps from
-- text, and bitwise operators.
--
-- Not modelled: switches of contexts and threads; epoll, the system calls themselves and wrappers
-- of pthread; zlib; dumps of sockets and loggers; the generated parsers; the look-up of addresses;
-- in ByteArray files, hexadecimal text, float and double. A function that holds a lock throughout is one
-- step, and so is ConfigVar::setValue, which takes its lock once for the callbacks and once for the store.
pub mod Address
pub mod Base
pub mod ByteArray
pub mod Config
pub mod FdManager
pub mod Fiber
pub mod Hook
pub mod Http
pub mod IoManager
pub mod Log
pub mod Mutex
pub mod Scheduler
pub mod Socket
pub mod Stream
pub mod TcpServer
pub mod Timer
pub mod Util
