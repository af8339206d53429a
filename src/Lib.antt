-- ===== src/Lib.antt =====
-- The cache service of this repository: an HTTP server that keeps sessions and master data in a
-- Redis cluster, and serves files.
--
-- A POST request carries JSON with an `operation`. `apollo` in src/redis/redis_source.hpp parses it,
-- finds the handler of the operation in an if chain, and writes the handler's reply to the response.
-- A handler reads `requestData`, sends commands to the cluster, and builds a JSON reply.
--
-- Base: texts as lists of bytes, Boolean tests, and `Action`, a state passing monad whose outcomes are
--   a value, a JSON error, another exception, or undefined behaviour. What was written before an
--   exception stays written.
-- Ptree: Boost.PropertyTree, a parameter. Ptree.Laws is what the program relies on in its JSON text.
-- Cluster: the vendored cluster client, a parameter: seven commands that may raise or return a null
--   pointer. Cluster.Laws states what Redis documents of them: `Semantics` for a server that may fail
--   at any command, `IsReliable` for one that answers. Cluster.Frame and Cluster.Namespace are rules for
--   the keys that an action leaves alone.
-- ErrorCode: src/redis/redis_errorcode.hpp. ReplyJson: the replies' common parts.
-- Session: CREATE_SESSION, ADD_USERID_UNDER_SESSION, DELETE_SESSION, QUERY_SESSION and
--   UPDATE_SESSION_DEADLINE, with Session.Isolation,
--   Session.Named, Session.Safety and Session.Lifecycle. Session.Store is the map of sessions that they
--   implement, and Session.Refined the simulation.
-- Master: BATCH_CREATE_AREAS, LIST_AREAS_BY_KEYS and the other handlers of {KV_MF} records. Handlers
--   that differ in their texts alone share a loop: create_items, list_items, list_elements,
--   delete_items, delete_elements. Master.Batch is the abstract map that they work on.
-- Strings, Replace: `find`, `replace` and `erase` of std::string, and replace_all and
--   replace_all_distinct of src/redis/redis_source.hpp and src/shared.hpp.
-- Static: `defaultindex`, in src/redis/redis_source.hpp and src/serverResource.hpp.
-- Http: the responses as the handlers write them. Api: the POST handler itself.
-- Api.Stream, Api.Conversation, Api.Masters: sequences of posts on one connection, and how a client
--   reads what is written for them.
-- Pool: ThreadedPool in src/redis/redis_source.hpp: a queue of ten connections for each host and for
--   each range of slots, and the interleavings of threads on one queue.
-- Resource: the order service of src/serverResource.hpp, with Base64Encode of src/shared.hpp.
-- Tables: the endpoints t_area, t_area_get, t_function and t_function_get. Logging: initlog of
--   src/renesolalog.hpp. Orderbot: src/orderbot.hpp.
-- WebClient: src/curl_client.hpp. Config: src/config.hpp. Downloads: src/paypal.hpp. Samples: the
--   algorithms of src/test.hpp.
-- Startup: serverRedisResource of src/redis/redis_source.hpp, which gives the server its handlers.
-- Transfers: the callbacks of src/asiohiper.hpp for libcurl's multi interface. What libcurl does in
--   answer to a call is a script, and Transfers.Contract what it promises.
-- Commands: commandThread and processCommandPool of src/redis/redis_source.hpp under a schedule.
-- Examples: a tree library, a server in memory, and the theorems at concrete inputs.
--
-- A handler holds the mutex lockRedis from its first statement to its end, so it is one action and
-- requests follow one another. `now` stands for the clock, which a handler reads for its reply. A text
-- that a handler passes through c_str() ends at its first NUL byte.
--
-- The globals redisHost, redisPort and redisPassword of src/redis/redis_source.hpp are empty: nothing
-- sets them. Tables connects with them, and Commands takes them as arguments.
--
-- Fuel: replace_all_distinct has one round more than the text has bytes, and every round settles a
-- byte; sanitize has one round more than the path has bytes, and every round removes one; chunks has
-- one more than the file has bytes; decimal one more than the number. replace_all takes its fuel as an
-- argument, since it need not end.
--
-- Not modelled: the HTTP server, the Redis clients, Boost, libcurl and OpenSSL, which are vendored or
-- external; main in src/main.cpp, which does not compile, since it passes an unsigned short where
-- serverRedisResource takes a string; functions that only print; the bit updates of src/test.hpp.
pub mod Base
pub mod Ptree
pub mod Cluster
pub mod ErrorCode
pub mod ReplyJson
pub mod Session
pub mod Strings
pub mod Replace
pub mod Static
pub mod Master
pub mod Http
pub mod Pool
pub mod Resource
pub mod Tables
pub mod Logging
pub mod Orderbot
pub mod Config
pub mod Downloads
pub mod WebClient
pub mod Samples
pub mod Api
pub mod Examples
pub mod Startup
pub mod Transfers
pub mod Commands
