-- ===== src/Lib.antt =====
-- A verification library of ctask, an HTTP service that stores the interaction times of named events
-- and answers the mean length of a path. A request is read from a socket, parsed, routed by its
-- method and path to a handler, which reads or writes the storage, and the answer is serialized.
-- Paths are from the root of the repository.
--
-- Files and what they model:
--
--   Common        shared: Boolean tests, lists, texts as lists of bytes (`codes "text"`), maps as
--                 association lists (Assoc: `find`, `emplace` and `operator[]` of a standard map),
--                 integers, decimal texts (Decimal), and results with exceptions (Result).
--   Utils         ctask_lib/utils/types and ctask_lib/utils/misc/misc.h: the types and constants,
--                 httpMethodFromString, httpStatusName, httpStatusCodeToString. Defer: the class of
--                 that name.
--   Logger        ctask_lib/logger.h: the constructor, instance and getLogger. Sharing: that all parts
--                 get one logger.
--   Telemetry     Types: models.h and the types of core/misc.h, with parseTimeUnit. Events: one
--                 `std::map` of timestamps, its iterators as positions. Storage: TelemetryStorage
--                 (storeEvent, getEventInteractions) run by one thread. Concurrency: the same two
--                 operations as moves of threads that take and release the two kinds of mutex, up to the
--                 one access that nothing orders; Replay there: the same calls made by one thread, Race:
--                 that access, Ordered: that all others have the entry for themselves.
--                 Storage.History and Storage.Abstract: the storage against the list of its stores,
--                 and up to what queries can tell apart.
--                 Mean: calculateMeanPathLength. Api: api/routes.cpp and dto/dto.h, the decoding of a
--                 request and the GET and POST handlers; Routing and Effects: behind the router;
--                 Decoding: the JSON of a request; Means: the number that a query is answered by.
--   Router        ctask_lib/network/http/router: custom/router.cpp (addGet, addPost, route,
--                 registerHandler_, processRouting_) and router_builder.cpp. Paths has the loops over
--                 a path: parseParameterNames_, buildParameterizedPathTemplate_, parseParameters_.
--   Parser        ctask_lib/network/http/parser/json: the callbacks, the validators, parseRequest.
--                 Stoll: `std::stoll`. Reuse: the object around llhttp, for many requests in turn.
--   Serializer    ctask_lib/network/http/response_serializer/json: serialize. Reader and
--                 Stream: a client that reads one response, and one that reads many.
--   Cli           ctask_lib/cli/cli_parser.cpp: parse.
--   Server        ctask_lib/service/http_server/http_server.cpp: the constructor, createService, and
--                 the loop of clientSession_ over what its reads and writes give. IRouter is the
--                 interface of i_router.h with what the session relies on; Service fills it with the
--                 router above and the routes of the telemetry. Listening: start and
--                 connectionHandler_. Connections: many sessions over one storage, turn by turn in any
--                 order. Scenario: two requests of one client through all parts. KeepAlive: one session
--                 with its timer, in steps and in time. Session.Staying: when a session reads again.
--                 Lifecycle: start, stop and the destructor, in the steps of the threads of the pool. Threads:
--                 the sessions on many threads, their turns cut at the locks of the storage. Plans
--                 there splits a turn at its one call of the storage, Routes and Turns do so for the
--                 handlers, the router and the session. Connections.Ranges: the C++ types of what
--                 the storage holds.
--   Application   app/main.cpp: the number of threads, and main. Program: main with the logger, which
--                 stands outside of its `try` block; Program.Ending: how it ends.
--
-- How the code is read. A text is a list of bytes. A call gives a value, a thrown exception, or
-- undefined behaviour (`undefined`, or `none` of an Option): a read past the end of a map, and signed
-- overflow of `int`. `uint64_t` wraps at 2 ^ 64; a size of a text or a vector stays far below that and
-- is not wrapped. A handler takes a request and a world, here the storage, and leaves an answer
-- and a world. A loop over a path runs on fuel, one more than the length of the path: each round moves
-- the start position on by at least one, and the equations of Router.Paths show that it never runs out.
--
-- Parameters: the JSON library (Telemetry.Api.Json), the operations on `double`
-- (Telemetry.Mean.Doubles), llhttp (Parser.Llhttp: the callbacks that it makes for a text and the code
-- with which it ends), what a platform leaves open of moved-from texts and of the texts of the
-- exceptions of `std::stoll` (Parser.Stoll.Platform), the order in which an unordered map is walked
-- (`walk` of Router.build), cxxopts and the files of the command line (Cli.Environment), the steps of
-- asio in front of the accepts (Server.Listening.Network), the number of hardware threads, what making
-- a thread pool gives (Application.Machine; `make_pool` of Server.construct), what `start` returns in a
-- run of the program (`started` of Application, tied to a run of Server.Lifecycle), and spdlog
-- (Logger.Spdlog).
--
-- A session takes a list of turns: what each read gives (the end, an error, bytes, cut at the 2048 of
-- the buffer) and how many bytes the write that follows takes. The keep-alive timer closes the socket,
-- which the session sees as an error of a read or of a write; when it does, is in Server.KeepAlive. There
-- a wait that has expired leaves a handler in the queue of the context, which a later reset of the timer
-- does not abort, as asio documents, and time passes between any two steps, or only where a predicate
-- allows it. In Server.Lifecycle the context is that of asio as well: a thread leaves `run` once the
-- context is stopped, and stop may be called at any step, which is what the handler of the interrupt and
-- the destructor do.
--
-- The turns of different sessions come in any order. In Server.Connections each is one step. In
-- Server.Threads a turn that calls the storage is as many steps as the call has critical sections, which
-- are the moves of Telemetry.Concurrency; any number of threads run them, and Refines there is why each
-- turn may count as one step. Where two threads have missed a new name, the second of them makes an entry
-- that is there by then. While no thread has found the entry, the mutex of the map orders its write, and
-- the move is there. Once a thread has found it, which goes by the mutex of the entry, nothing does: that
-- is a data race, outside the defined behaviour of C++, so that there is no such move, and the
-- interleavings are those up to it. For that a system holds the names that were found. A turn does
-- nothing else that another connection could see.
--
-- Not modelled: the single messages that are logged; a second call of start; and the memory of the
-- objects that are shared by pointer. The abstract classes declare no more than what
-- their one implementation here has.
pub mod Common
pub mod Utils
pub mod Logger
pub mod Telemetry
pub mod Router
pub mod Parser
pub mod Serializer
pub mod Cli
pub mod Server
pub mod Application
