-- ===== src/Lib.antt =====
-- nanonet: a C++ library for network programs. This development models the parts of it that compute:
-- the configuration reader, the queue and thread pool, the external data representation, the
-- text utilities, the URLs of its HTTP client, containers, its buffers of streams, its sockets
-- and their addresses, its server, and its log.
--
-- The configuration reader. A lexer turns the bytes of a stream into tokens, a parser turns tokens into
-- pairs of a key and a value, and a registry stores the pairs and gives them out converted and checked.
--   Double      the processor's `double` and `is >> x`, a record of operations that every part takes as
--               a parameter; what is used of `>>` is the hypothesis ReadsPrefix.
--   Token       token and closing_token of include/nanonet/registry.h.
--   Error       what the reader throws: each exception by the values that its text names.
--   Lexer       lexer of include/nanonet/registry.h and src/registry.cpp. A stream is the list of the
--               bytes that are left. Lexer/Chars has the loops over characters, Lexer/Loops and
--               Lexer/Within the lemmas on them, Lexer/Progress what each call of get_token does, and
--               Lexer/Quoted quoted strings.
--   Parser      parser of the same files: Parser/Weight measures what is left to read, and
--               Parser/Termination shows that the parser ends; Parser/Numbers has read_numbers.
--   Convert     the convert functions of both files and check_long of src/util.cpp; Convert/Shape and
--               Convert/Matrix say when they succeed and with what.
--   Registry    registry of both files; Registry/Checks has the checked getters, Registry/Lookup the
--               store's lemma, and Registry/Reading what reading a configuration does.
-- Rounds: get_token restarts behind each comment, and is given one round more than bytes are left;
-- parse_list and parse_term are given twice the bytes left plus two, both as the number of elements and
-- as the depth of nesting. Running out is an exception of the model alone, which is shown not to occur.
--
-- The threads. Code that holds a mutex is one step, and an execution is a list of steps in any order.
--   SafeQueue   safe_queue of include/nanonet/safe_queue.h; SafeQueue/Monitor adds the threads that wait
--               and the notifications under way, SafeQueue/Monitor/Wakeups the invariant.
--   Dispatch    thread_pool of include/nanonet/dispatch.h and src/dispatch.cpp; Dispatch/Workers has the
--               steps of a worker, Dispatch/Shutdown the invariant, with the calls in
--               Dispatch/Shutdown/Calls, Dispatch/Begun which tasks are begun when a worker is
--               overtaken behind its pop, and Dispatch/Join the destructor.
--               Dispatch/Returning is dispatch_returning, with the end of its task in
--               Dispatch/Returning/Finished, and that it returns in Dispatch/Returning/Progress, by
--               Dispatch/Returning/Draining.
--
-- Data and texts.
--   Xdr         integers and padded strings of include/nanonet/xdr.h, with Xdr/RoundTrip; Xdr/Raw has the values
--               that go as they are in memory.
--   Text        splitter, split, getline, chop and canonical of include/nanonet/util.h and src/util.cpp,
--               with Text/Split and Text/Lines.
--   Http        the URLs of wget and the content types of src/http.cpp; Http/Url and Http/Targets say
--               which URLs are taken and what becomes of them.
--               Http/Requests is parse_get_request, with the words and header fields in
--               Http/Requests/Fields and what it makes of requests in Http/Requests/Parsing.
--               Http/Responses has the headers of answers, Http/Client the request of wget1 and what it
--               makes of an answer, with the two together in Http/Client/Exchange and its requests given
--               to the parser in Http/Client/Refused.
--   Containers  capped_vector, safe_advance, erase_if and check_strictly_ascending of
--               include/nanonet/container-util.h, with Containers/Capped and Containers/Advance.
--               Containers/Sequences has write_sequence, flatten, distance_at_least and the stride of
--               check_strictly_ascending, with Containers/Sequences/Printing and
--               Containers/Sequences/Strides.
--   StreamBuf   ostreambuf of include/nanonet/util.h on a writer that is a parameter; StreamBuf/Delivery
--               says what becomes of the characters. StreamBuf/Source is istreambuf on a reader that is
--               a parameter, with its memory in StreamBuf/Source/Memory, its refilling in
--               StreamBuf/Source/Refill and what it gives out in StreamBuf/Source/InOrder.
--   ReaderWriter  read and write of a socket (include/nanonet/detail/socket.h) and of a file
--               (src/posix/wrappers.cpp); ReaderWriter/Streams puts them below the buffers of StreamBuf,
--               ReaderWriter/Resending has a flush after one that failed, and ReaderWriter/Transmission a
--               text from one end of a connection to the other. An interrupted call is repeated for a
--               number of rounds, as in Network.
--   Resource    auto_resource of include/nanonet/util.h over its traits, as sequences of uses of its
--               objects; Resource/Ledger accounts for the handles, Resource/Sentry is increment_sentry.
--
-- Sockets and servers. The operating system's calls are parameters.
--   Network     the sockets of src/network.cpp and include/nanonet/detail/socket.h, over a record of
--               calls; Network/Attempts has bound_socket, Network/Candidates connection::initialize,
--               Network/Events what an attempt does with its socket, and Network/Descriptors which
--               sockets are open. Network/LowLevel has the calls of src/detail/network.cpp over those
--               of the system; Network/LowLevel/Blocking and Network/LowLevel/Accepting are about the
--               mode that they leave a descriptor in and the descriptors that they leave open. Loops
--               over interrupted calls are given a number of rounds, and a call that is interrupted in
--               all of them counts as one that fails. Network/System makes the record of calls of them.
--               Network/Families has the address families and ports of src/sys/net-util.cpp.
--               Network/Address has the addresses of include/nanonet/detail/net-address.h over the C
--               library's resolver: Network/Address/Endpoints their comparison, and
--               Network/Address/Resolving what names are resolved to. Network/Datagrams is datagram_socket
--               of include/nanonet/sys/network.h, with its constructors: Network/Datagrams/Creation says
--               which sockets they open, Network/Datagrams/Destination what is connected,
--               Network/Datagrams/Sending has connect and send, Network/Datagrams/Receiving receive, and
--               Network/Datagrams/Receiving/Results what that gives.
--   Server      a connection of src/sys/server.cpp: handle_connection and connection_thread. The handler
--               is a parameter, and so is the state that it shares. Server/Framing and Server/Lines say
--               which lines it is given, Server/Ends that the connection ends. Server/Listen is the loop
--               of run_server, and Server/Listen/Retries its bounds; Server/Manager is run_server as a whole, with
--               the server_manager that it returns. Server/Threads has the server
--               thread beside those of its connections, as steps in any order; Server/Threads/Counting
--               the count of connections, Server/Threads/Shutdown what holds at the end, and
--               Server/Threads/Progress that a shutdown comes to its end.
--   Syslog      priorities and the writer of src/sys/syslogger.cpp; Syslog/Names has the names of
--               priorities, and Syslog/Levels which messages are passed on. Syslog/Settings has the minimum
--               levels, log_error and log_oneoff, Syslog/Buffering the parts that long texts are cut into, and Syslog/Settings/TestMode the test mode of
--               include/nanonet/sys/syslogger.h.
--   Rates       the moving average and estimator of rates of src/math-util.cpp and
--               include/nanonet/math-util.h, over the processor's arithmetic, and the estimators of the
--               server; Rates/Accepted says which times an estimator counts.
-- A connection's loop is given two rounds more than there are characters.
--
-- Common has what they share: Boolean tests and the conditional, lists measured by native numbers,
-- Outcome for calls that return or throw, signed integers, and bit operations. Tests holds a registry of
-- whole numbers on which everything is run, and the concrete instances of the theorems.
--
-- Not modelled: what the server logs and log_params,
-- and what of src/detail and src/network.cpp only calls the operating system;
-- the connection of wget1 and what it logs; rvector of
-- include/nanonet/container-util.h; a call of dispatch_returning by a worker.
mod Common
pub mod Double
pub mod Token
pub mod Error
pub mod Lexer
pub mod Parser
pub mod Convert
pub mod ReaderWriter
pub mod Registry
pub mod Xdr
pub mod SafeQueue
pub mod Dispatch
pub mod Text
pub mod Http
pub mod Containers
pub mod Resource
pub mod Rates
pub mod StreamBuf
pub mod Network
pub mod Server
pub mod Syslog
mod Tests
