-- ===== src/Lib.antt =====
-- The verification library of the CIS web server (src/, include/ of the repository).
--
-- The server keeps users, tokens and rights in a database, runs the builds of a continuous
-- integration system as child processes, and serves a web page over HTTP and a websocket. A request
-- on the websocket is read by its session (src/net/queued_websocket_session.cpp), dispatched by its
-- event (`make_ws_router` in src/application.cpp) to a handler of src/websocket/handlers, which asks
-- the managers (include/auth_manager_interface.h, include/rights_manager_interface.h) and sends its
-- answers through the queue of the websocket (src/net/websocket_queue.cpp). A build that runs is a
-- session (src/cis/session.cpp), which tells its subscribers, who write to the same queues. Uploads
-- arrive as multipart forms, whose parts src/beast_ext/message_stream_parser.cpp reads.
--
-- The files and what they model:
-- - RequestUtil: src/http/request_util.cpp, `unescape_uri`, `escape_uri` and the digits. A string is
--   the list of its characters' codes. `parse_request_query` and `parse_cookies` are not modelled:
--   they are loops over `std::regex` searches.
-- - Base64: src/base64.cpp, with the six-bit groups by division and modulus.
-- - MessageStreamParser: src/beast_ext/message_stream_parser.cpp. One function for a character, one
--   for the end of a message; an iterator into a literal is the rest of the literal.
-- - KnuthMorrisPratt: src/beast_ext/knuth_morris_pratt_searcher.cpp, with the table's entries as
--   integers and the counters as natural numbers. KnuthMorrisPratt.Borders and .Search have the
--   reference, the longest beginning of the pattern that the text so far ends in.
-- - MultipartStreamParser: src/beast_ext/multipart_stream_parser.cpp. `none` is std::terminate.
-- - Net.WebsocketQueue, Net.QueuedSession: src/net/websocket_queue.cpp and
--   src/net/queued_websocket_session.cpp. The state is the queue, its close handlers with their
--   32-bit keys, the reads under way and what went to the wire. Operations of one websocket run on
--   its strand, so an interleaving is a sequence of steps. The timer and the pings of
--   src/net/basic_websocket_session.cpp, and Boost.Beast itself, are not modelled.
-- - Net.HttpSession: src/net/http_session.cpp and include/net/http_session.h, with a handler as the list
--   of what it does with the queue and the request reader.
-- - Cis.Session: src/cis/session.cpp, with subscribers as weak pointers: a step is given the set of
--   the objects that are alive. A subscriber's callback is its list of heard entries.
-- - Cis.Projects: the table of projects of src/cis/cis_manager.cpp, over the guard of Database.
-- - Handlers.Subscriptions: src/websocket/handlers/session_subscribe.cpp and session_unsubscribe.cpp.
-- - Cis.SessionManager: src/cis/session_manager.cpp and src/cis/offline_session.cpp, with the uses of each
--   session's pointer counted. What other code does with the pointers is any sequence of calls.
-- - Managers: the interfaces of the managers, as records of operations over a state `W`. A theorem
--   about the handlers holds for every manager.
-- - Database: include/database_structures.h and include/database.h. SQLite under sqlite_orm is the
--   parameter `Storage` of Database.Transaction, each of whose operations may fail, with what its
--   documentation promises in `IsSqlite`; Database gives the meaning of the statements, the unique
--   columns and the cascades of the schema. The guard is a state that the code under it passes on.
-- - Auth: src/auth_manager.cpp. A method gives the database, its value and whether it set the error
--   code. The clock and the random texts are arguments; where the list of random texts runs out, the
--   loop that draws them does not end, which is the outer `none` of `authenticate`.
-- - Rights: src/rights_manager.cpp, with a std::map as a function from its keys. Rights.Rows has what
--   keeps the rows of a user and a project one at most.
-- - Handlers: the fourteen handlers of logins, users, keys and rights of src/websocket/handlers, and
--   Handlers.Dispatch, the dispatch of their requests. A handler is a function from the state and the
--   context of its websocket to an `Outcome`: the state, the context and the messages sent. The log
--   lines are left out.
-- - Dto, Managers.Cis: what the handlers of projects send and call. std::filesystem::path is the
--   parameter `PathLibrary`; what is read of an entry on the disk is a record. An object that a lookup
--   hands out is the record of what its methods give.
-- - Handlers.FsEntries, Handlers.Projects, Handlers.Jobs: src/path_utils.cpp and the twenty handlers of
--   entries, projects, jobs, builds and schedules. A handler gives a `Reply`: the state, the messages
--   sent, the asynchronous calls started, and whether it throws; what is sent when a call ends is a
--   function of its result. Handlers.Routing is their dispatch.
-- - HttpHandlers: the chain of HTTP handlers that src/application.cpp builds, with
--   src/http/handlers_chain.cpp, common_handlers.cpp, cookie_parser.cpp, error_handler.cpp,
--   file_handler.cpp, download_handler.cpp and multipart_form_handler.cpp. What a handler does on the
--   queue and the reader is a list of events. std::regex and the disk are parameters.
-- - Webhooks: src/http/webhooks_handler.cpp, from the request to the responses sent and the jobs run.
--   HMAC-SHA1 and the loop over std::regex that splits a query string are parameters; the name of the
--   file that `save_body` writes is an argument.
-- - FsCache: src/fs_cache.cpp, the tree of nodes with the disk as a parameter that is read, and the
--   time of a call as an argument. FsCache.Order and FsCache.Loading are about the reading of a
--   directory; FsCache.Lookup has the lookups and the iteration, where `remove_entry` is
--   `cis_manager::remove` of src/cis/cis_manager.cpp.
-- - MultipartFormBody: include/beast_ext/basic_multipart_form_body.h, the reader of a form's parts, with
--   the file and its disk as the parameter `Disk`. The buffers of a call are joined to one, and iterators
--   are positions. Opening has a disk that keeps the log of what it opens.
-- - Cis.Stream: std::ifstream, as the next three read it. Cis.JobConf and Cis.Structs:
--   src/cis/cis_structs.cpp, over what is read through an fs_iterator as the parameter `Entries`.
--   Cis.Manager: cis.conf and the list of schedules of src/cis/cis_manager.cpp.
-- - Tests: each theorem at a concrete input; Tests.Database has a database in memory as a `Storage`.
--
-- Fuel: `draw_token` has the list of the random texts; one text that is no token's value is enough.
-- `build_table` has twice the pattern's length, since a step that does not fill an entry of the table
-- makes the condition smaller, and one that fills an entry makes it greater by one at most;
-- `partial_search` has two more than the matched count, since a mismatch makes the count smaller.
-- `merge` has the number of the old and the new children, one of which is passed at each step. Every
-- other loop of the modelled code goes over a list, but for those over a stream or a text that is cut
-- from the front, for which one more than its length is enough.
-- Machine integers keep their wrap-around (`% 2 ^ w`), as the keys of the close handlers do.
--
-- Not modelled: the running of jobs, the operations of the file system cache that change the disk,
-- start-up, configuration, child processes and logging.
pub mod Prelude
pub mod RequestUtil
pub mod Base64
pub mod KnuthMorrisPratt
pub mod MessageStreamParser
pub mod MultipartStreamParser
pub mod MultipartFormBody
pub mod Net
pub mod Cis
pub mod Managers
pub mod Database
pub mod Auth
pub mod Rights
pub mod Handlers
pub mod Webhooks
mod Tests
pub mod Dto
pub mod FsCache
pub mod HttpHandlers
