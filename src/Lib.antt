-- ===== src/Lib.antt =====
-- A model of docker-plugin-cpp, a library for Docker plugins: a server on a Unix domain socket that
-- speaks HTTP/1.1, reads Docker's requests as JSON, calls the methods of the drivers that the
-- program registered, and writes their answers.
--
-- The parts, from the socket up, and the files that model them:
--   * uds_connection of lib/src/uds_server.cpp: Channel (the state, `write`, `close`) and
--     Channel/Writing. What the kernel's `send` returns is a list in the state, so that a proof is
--     over every way in which a write can be cut short.
--   * uds_server of lib/src/uds_server.cpp: Server (`bind_path` is bind, `run` is run, `handle_io`
--     is handle_io), with Server/Polling, Server/Quiet (runs in which nobody connects),
--     Server/Accounts and Server/Descriptors (the open descriptors) and Server/Lifecycle (the
--     destructors). The kernel, the logger and the connection's methods are the argument
--     `Environment`.
--   * http_header_set and case_insensitive_less of lib/src/http_server.h: Http/Headers, on the
--     multimap of Map. A key's order is the lexicographic one of `header_rank`.
--   * http_connection of lib/src/http_server.cpp: Http/Connection (the members), Http/Status (the
--     table of messages) with Http/Status/Messages, Http/Response (response_status, send_headers,
--     send_data; `finish` is end() and `finish_with` is end(data, len)) and Http/Callbacks (the
--     callbacks of get_settings, `on_read`). Http/Response/Wire, /Reading, /Framing, /Chunks and
--     /Streaming are about what goes out, and Http/Callbacks/Assembly about what comes in.
--   * lib/src/serialize.cpp: Json (parse_object and convert_map; `read_map` is the one that reads
--     and `write_map` the one that writes), Messages, and FromJson and ToJson of Volume, Network
--     and Ipam. The three hold the types of volume/api.h, network/api.h and ipam/api.h under
--     lib/include/docker-plugin-cpp, and a driver as a record of methods over a state of its own.
--     Json/Unordered is about maps that are written in another order (Map/Order has the order of
--     their keys), and Volume/Reading has what Docker reads of the answers. Volume/Times is
--     convert_time, which those that write a time take as an argument.
--   * lib/src/plugin.cpp: Plugin/Routes (the chain of URLs), Plugin/Methods (what each of its
--     branches calls) and Plugin/Handlers (the overridden callbacks and invoke_plugin_handler),
--     with Plugin/Replies, Plugin/Requests, Plugin/Refusals, Plugin/Registration, Plugin/Malformed
--     and Plugin/Activation. Plugin/Startup has the class plugin: its constructor, register_volume
--     and the like, run and the destructor.
--   * the server of a plugin, http_server<plugin_http_connection, plugin*> of lib/src/plugin.cpp
--     and lib/src/http_server.h: Plugin/Serving, with Plugin/Serving/Descriptors, /Lifecycle,
--     /Rounds and /Clients (several clients at once); Plugin/Pipelines has several requests on a
--     connection, Plugin/Client the client that reads the answers, and Server/Runs several runs.
--     Http/Response/Sockets, Http/Callbacks/Sockets and Plugin/Sockets are about the socket of a
--     connection.
--   * lib/src/logger.cpp: Logger.
--   * the example in sample_volume: Sample/Util and Sample/Times (class util of include/util.h; in
--     Sample/Times create_time), Sample/Driver (volume_plugin of src/main.cpp), Sample/Main (the
--     start of main) and Sample/Program (the whole of main, over Sample/Loop); Sample/Replies and
--     Sample/Served are the plugin that main registers, as a client sees it. The calls of the C
--     library are the argument `Files` of Sample/Files. The files below Sample/Util and
--     Sample/Driver hold what is proved of them.
-- Base, Map and Result are shared by the parts, and Tests has concrete runs.
--
-- A call that may throw gives a Result. A text is a list of bytes. An int or size_t that only
-- counts bytes or descriptors is a natural number; what wraps or can be negative is written out.
--
-- Loops on fuel: that of send_data gets one round more than there are bytes, and each round but the
-- last sends a byte at least. That of make_dirs gets two rounds more than the path has bytes, and
-- each round goes on behind the last slash. That of cwd is given its rounds, and each one doubles a
-- buffer of 10 bytes. The loop of main is given its rounds, and ends with the signal that comes
-- within them; a loop of cwd or of main that is out of rounds gives none. remove_dir is given two
-- rounds more than the directories that can be open at once, and each call opens one more.
--
-- Not modelled: picojson and llhttp, which are arguments (Json.Picojson, Http.Callbacks.Llhttp);
-- the kernel, gmtime, strftime and the logger's clock, which are arguments too; the message that
-- on_read prints to stderr; and the signal handlers of main, whose flag is `should_exit` of the
-- kernel's state. What send will answer on a socket is settled when it is accepted. An open
-- directory gives the entries that it had when it was opened, and times are not negative. A status
-- that a driver sets is a natural number. FD_SET of a descriptor of FD_SETSIZE or more, which is
-- undefined, is not told from any other. What the clock cannot hold, and what was not written, is
-- any number. Of how many directories a process can have open, only those of one call are counted;
-- that others are open too can be the reason why one does not open.
pub mod Base
pub mod Map
pub mod Logger
pub mod Channel
pub mod Http
pub mod Result
pub mod Json
pub mod Volume
pub mod Network
pub mod Ipam
pub mod Messages
pub mod Server
pub mod Plugin
pub mod Sample
pub mod Tests
