-- ===== src/Lib.antt =====
-- A C++ server library over I/O completion ports of Windows, in (1)ServerCoreModel/ServerCore,
-- and the game server and the test client that use it. A completion of the port is dispatched
-- to a session; the session cuts the bytes it got into packets and hands them to a handler; the
-- handler reads the fields, and posts jobs to job queues, or writes an answer into a send
-- buffer, which the session queues and sends.
--
-- Files, and the code that each is about, below (1)ServerCoreModel/:
--   Bytes: integers as bytes in memory, as pointer casts and `memcpy` read and write them.
--   Recv: ServerCore/RecvBuffer, the receive buffer. The queue that it stands for is in
--     Recv/Queue, and Recv/Refinement has sequences of calls.
--   Packet: PacketHeader and PacketSession::OnRecv of ServerCore/Session. Packet/Frames says
--     what packets a stream of bytes holds, without the loop; Packet/Loop compares the loop
--     with it.
--   IocpEvent: EventType of ServerCore/IocpEvent.
--   Session: ServerCore/Session, every method of a connection. Session/Sending and
--     Session/Order are about the send side, Session/Receiving and Session/Stream about the
--     receive side. Session/Lifecycle is about what the methods do to the connection.
--   Lock: ServerCore/Lock, the reader-writer spin lock; Lock/System has threads that take and
--     release it, each call in one step, and Lock/Exclusion is about them; Lock/Writers has the
--     accesses of threads that only write, and Lock/Guards what they hold. Lock/Waiting has the
--     loops, and Lock/Timeout is about how they end.
--   LockQueue: ServerCore/LockQueue, and ServerCore/GlobalQueue, which is one.
--   JobQueue: ServerCore/JobQueue, with DoGlobalQueueWork of ServerCore/ThreadManager; a call
--     of Push or Execute is an agent, and its accesses to shared state are steps.
--     JobQueue/Invariant and JobQueue/Order are about its runs, and JobQueue/Progress about how
--     a run can go on.
--   SendBuffer: ServerCore/SendBuffer, the send buffers of a thread's chunk.
--   JobTimer: ServerCore/JobTimer; JobTimer/Due says which jobs it hands out.
--   RefCounting: ServerCore/RefCounting; RefCounting/Counting and RefCounting/Kept are about
--     its counts, for objects that hold no TSharedPtr themselves.
--   Memory: ServerCore/Memory, ServerCore/MemoryPool and ServerCore/ObjectPool. Memory/Table is
--     about the table of pools; Memory/Blocks, Memory/Calls, Memory/Kept and Memory/Safety are
--     about runs of Allocate and Release.
--   Allocator: the stomp allocator of ServerCore/Allocator; Allocator/Pages is about the pages
--     that it uses.
--   TypeCast: the lists of types of ServerCore/TypeCast; TypeCast/Places is about their places,
--     and TypeCast/Convert has the table of conversions.
--   DeadLock: ServerCore/DeadLockProfiler; DeadLock/Silence shows what it reports.
--   FlatBuffer: ServerCore/FlatBufferWriter and ServerCore/FlatBufferReader. FlatBuffer/Fields
--     has the fields of a packet, FlatBuffer/Writing what the writer leaves, FlatBuffer/Reading
--     the way back.
--   Game: GameServer/Lobby, GameServer/Room, GameServer/ClientSession,
--     GameServer/ClientSessionManager and GameServer/ClientPacketHandler. Game/Rooms,
--     Game/Lobbies and Game/Handlers have the operations; reading what ClientSession::Room
--     returns is `stray`. Game/Infos is about the packets that inform the players,
--     Game/Dispatch about the table of handlers, and Game/Losses about a player who joins a
--     second room.
--   Dummy: DummyClient/DummyClient, DummyClient/ServerSession and
--     DummyClient/ServerPacketHandler, the console client. Dummy/Lobby and Dummy/Chat follow a
--     packet from one program into the other.
--   Service: ServerCore/Service and ServerCore/Listener; Service/Readiness and
--     Service/Accepting are about the accept events. Service/Registry has the calls of the
--     sessions' methods, and Service/Releasing the set that they keep.
--   Database: ServerCore/DBBind, ServerCore/DBConnection and ServerCore/DBConnectionPool;
--     Database/Bound is about the flags of DBBind. Database/Connections has the handles of the
--     connections and of the pool, Database/Leaks is about what becomes of them, and
--     Database/Variables has what the overloads hand to ODBC.
--   Worker: the loops of GameServer/GameServer, with ServerCore/IocpCore,
--     ServerCore/ThreadManager and the job queues and the timer of one thread. Worker/Settled
--     has the invariant of the queues; Worker/Rounds, Worker/Executing, Worker/Handling and
--     Worker/Loop go through the loops, and Worker/Clearing is about ClearJobs.
--     Worker/MainThread has the loop of the main thread.
--   Prelude: shared names, lists, runs of bytes, and how a call ends.
-- A name of the source in snake_case is the name here: `Session::RegisterSend` is
-- `register_send`.
-- `CRASH` is the outcome `crash`, and an access outside of an array, through a null pointer or
-- to a destroyed object is `stray`.
--
-- What is outside of the repository is a parameter. `Memcpy` is `memcpy` with its contract,
-- which is for parts that do not overlap. `Kernel` is what Winsock answers to each call.
-- `PriorityQueue` is `std::priority_queue` with the contract of `top` and `pop`. `Build` says
-- what a new send buffer holds and what `std::to_wstring` writes, `Answer` how AcceptEx ends,
-- `SqlReturn` and `Odbc` what ODBC answers and does to its handles, `exists` which conversions
-- the compiler has, and `static_cast` where it finds the other object; `fresh` is what
-- `_aligned_malloc` gives. The threads of the lock are numbered from 1 on and below 2 ^ 16, as
-- the flag has room for. `VirtualMemory` has the pages of `VirtualAlloc`, and `Setting` the
-- jobs of the program and the clock of a worker.
--
-- Fuel: the loop of OnRecv runs on a number of rounds; one more than there are bytes is enough,
-- unless a header states the size 0. One round more than there are items is enough for the
-- timer, and one round for the profiler, whose search turns back at once. The loops of a lock
-- and of a worker run on rounds, which are enough if there are more of them than calls of the
-- clock up to the end of the time. The sizes in a header keep the wrap-around of their 16 bits;
-- the positions of a receive buffer are numbers up to its capacity.
--
-- The methods of a session, of a lock (but for its loops, in Lock/Waiting, and Lock/Writers)
-- and of the game's objects each run without interruption; job queues are interleaved at each
-- access in JobQueue, and those of one thread run in its order in Worker. The jobs of the lobby
-- and of a room run in the order of their queue.
-- Not modelled: the start and the end of threads, sockets, addresses and the making of the
-- completion port, which mostly call Windows; what the two main functions do besides the rounds
-- of the workers and the client's answers to its user; the sample of the database; the
-- allocators that hand on to others, and the containers.
pub mod Allocator
pub mod Worker
pub mod Database
pub mod Service
pub mod Game
pub mod Dummy
pub mod Memory
pub mod TypeCast
pub mod JobTimer
pub mod RefCounting
pub mod DeadLock
pub mod Prelude
pub mod Bytes
pub mod Recv
pub mod Packet
pub mod IocpEvent
pub mod Session
pub mod Lock
pub mod LockQueue
pub mod JobQueue
pub mod SendBuffer
pub mod FlatBuffer
