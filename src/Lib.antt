-- ===== src/Lib.antt =====
-- CmyMessage: a verification of its services.
--
-- The repository holds a broadcast chat (services/2_Broadcast-chat) and a service for files
-- (services/1_FTP), each a server with a pool of threads that take their clients from a queue. In
-- the chat a client chooses a name, which goes into a hash table; one thread at a time then gathers
-- the messages of all ready clients and sends the result to every client in the table.
--
-- Parts and files:
--   CString          the string functions of the C library, over memory objects with an end
--   HashTable        services/2_Broadcast-chat/src/utils/hash_table.c; a table is the array of its
--                    chains, and `none` the NULL pointer. HashTable/Chain and HashTable/Valid say
--                    which map a table stands for, HashTable/Update what an insertion and a deletion
--                    do to it, HashTable/Release what a clean-up gives back
--   HashTable/Murmur murmur3_32_hash of the same file, on Words, the arithmetic of uint32_t
--   Queue            services/2_Broadcast-chat/src/utils/queue.c: the globals queue_size, head and
--                    tail and the heap of nodes; Queue/Cells describes the heap as a list, and
--                    Queue/Refinement compares the code with operations on that list
--   Chat             services/2_Broadcast-chat/src/broadcast_chat_service.c, by what it does:
--                    Chat/Names (ask_and_assign_username, accept_and_store_client_username),
--                    Chat/Broadcast (broadcast_message_to_online_clients), Chat/Gather (a round of
--                    get_messages_from_active_clients), Chat/Session (the rest of that function) and
--                    Chat/Monitor (wait_for_thread_work and the places that set is_broadcasting,
--                    as steps of any number of threads);
--                    Chat/Names/Sections has what a thread does while it holds a mutex, for clients
--                    that choose names at the same time, and Chat/Names/Sections/Reached a broadcast
--                    to clients that chose them one after the other;
--                    Chat/Start is prepare_client_for_broadcast_and_start, which runs all of it for
--                    one client, and the allocation of what the clients share
--   Pool             services/2_Broadcast-chat/src/utils/service_utils.c: what the threads of the
--                    pool (Pool/Worker) and of the listener do with the queue; Pool/Crew has all of
--                    them at work on one queue
--   Server           the start of a service, of the same file: the mutexes, the threads and
--                    start_service, over Sockets and Pool
--   Sockets          the structure of a server and its socket, from
--                    services/2_Broadcast-chat/src/utils/net_utils_tcp.c; Sockets/Creation is
--                    create_socket_struct; Sockets/Peers has what is different in
--                    services/1_FTP/src/utils/net_utils_tcp.c, which the clients share
--   Clients          the structure of a client and its memory, from
--                    services/2_Broadcast-chat/src/utils/net_utils_tcp.c
--   Ftp              the connection of services/1_FTP; Ftp/Transfer is send_file and receive_file of
--                    services/1_FTP/src/ftp_utils.c, Ftp/Numbers the printing of sizes and atoi,
--                    Ftp/Service and Ftp/Service/Commands services/1_FTP/src/ftp_service.c
--   FtpClient        clients/src/utils/ftp_client.c and clients/src/utils/ftp_utils.c, over the
--                    connection of Ftp; FtpClient/Using is clients/src/clients.c,
--                    FtpClient/Talk the client while no file is moved;
--                    FtpClient/Transfers, FtpClient/Turns, FtpClient/Sessions and
--                    FtpClient/Agreement put client and server together
--   Prelude          shared names, lists over the native numbers, and the monad of runs
--   Tests            runs at concrete inputs
--
-- How the code is read. Numbers are natural numbers; a uint32_t is kept below 2 ^ 32 by `u32`,
-- and an int that atoi gives is written out in `to_int`. Undefined behaviour is a value: a run is
-- `ok` or a `fault` that names what went wrong. State is passed on, a function that returns
-- nothing gives `none` as its status. What the operating system answers is an argument: the
-- results of `malloc`, `select`, `recv`, `send` and of the file system. A call of `recv` gives
-- one answer; with no answer left it blocks, and a connection that was closed is as many answers
-- `closed` as are read. Unless an argument says otherwise memory is left.
--
-- Loops. Walks over chains, descriptors, names and answers are structural. `send_loop` has fuel for
-- the number of bytes and one more, since each turn sends a byte. `command_loop` has fuel for the
-- answers that are left and one more, since each turn reads one. `decimal_loop` has fuel for the
-- value and one more. That this is enough is proved with each loop.
--
-- Sockets and threads. A structure is a record of its fields, of which one that was never assigned is
-- `none`, and reading it is a fault. What was given back to `free` and which descriptors were closed
-- is written down in order. A function that ends without a return statement has no value, and using
-- its value is a fault; only prepare_client_structs_for_data, which lacks the last return in the same
-- way, is read as it is meant, with the prepared structure as its result. A field of the structure of
-- a client that was never assigned is a fault when the structure is released; where the fields are
-- not followed from the start, as in the closing of the listener, the memory of the clients is an
-- argument. The clean-up function of a table is called with the address of each object, and what it
-- does there is not followed.
--
-- Not modelled: what is only printed or logged, and the signal handler that logs. A call of
-- `recv` is one answer of any length up to what was asked for, so that how the network cuts and
-- joins texts is in the hypotheses. The schedule of the threads is modelled for the monitor of
-- the broadcast, for the names and for the queue of clients, each by itself; a thread in
-- pthread_cond_wait may wake at any time. The start of the service for files,
-- services/1_FTP/src/utils/service_utils.c, is not modelled: it runs a pool and a queue of other
-- sizes. services/0_Template, the hash table and queue of services/1_FTP, and the sockets of
-- clients are copies of files that are modelled.
pub mod Prelude
pub mod CString
pub mod HashTable
pub mod Words
pub mod Queue
pub mod Chat
pub mod Pool
pub mod Clients
pub mod Sockets
pub mod Server
pub mod Ftp
pub mod FtpClient
mod Tests
