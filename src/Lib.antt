-- ===== src/Lib.antt =====
-- Tangent, a node of a Chord ring: its identifiers, its finger list, its tickets and its packet
-- handlers.
--
-- A node keeps a list of fingers, the other nodes it knows, in clockwise order from its own 160-bit
-- identifier. `src/chord.c` reads packets from a socket; the dispatcher (`src/dispatcher.c`) looks
-- the handler of a packet's type up and calls it (`src/process.c`). A handler checks the packet's
-- ticket (`src/crypt.c`), puts peers into the list (`src/finger.c`) and sends answers
-- (`src/sendpkt.c`, `src/pack.c`). A timer runs `src/stabilize.c`, which pings the fingers, looks
-- for better ones and prunes the list. The file client (`file_client/`) takes the data packets over
-- from a server, answers the queries for its files and transfers them. `src/logger/` writes
-- messages, `src/grid.c` draws with characters.
--
-- Which file models which part:
--   Base        lists, tests and integers over the native numbers that the other files share
--   Id          `src/util.c`, `include/chord/chord_api.h`: a `chordID` is the list of its bytes
--   Server      `include/chord/chord.h`, `finger.h`, `chord_opts.h`: the record `ChordServer`;
--               Server/Addr has the addresses of `src/util.c`
--   Finger      `src/finger.c`: the list between `head_flist` and `tail_flist` is a `List Finger`, a
--               pointer to a cell is its address `loc`; Finger/Links has the stores to `next`, `prev`,
--               head and tail; Finger/Rtt has `update_rtt` of `src/util.c`
--   Crypt       `src/crypt.c`: SHA-1 and the codec of tickets are the parameter `Crypto`
--   Send        `src/sendpkt.c`, `src/pack.c`, `src/messages.proto`: what goes into each datagram
--   Process     `src/process.c`: a handler is a function to an `Outcome`, an error code with the new
--               server and the commands that it gave, or a fault; `chord_id_is_local` of `src/chord.c`
--   Dispatcher  `src/dispatcher.c`: the table of handlers; Dispatcher/Packet has `dispatch_packet`
--   Chord       `src/chord.c`: `new_server` with the handlers it registers, the peers of a configuration
--               file and `handle_packet`; Chord/Reach is the steps of a server from its start on
--   Stabilize   `src/stabilize.c` and `src/join.c`; Stabilize/Clean has `clean_finger_list`, and
--               Stabilize/Round `stabilize`
--   Dhash       `file_client/`: clients that look up files by the hash of their names. A `Dhash` is the
--               state that the handlers read, with the effects so far; Dhash/Handlers has process.cpp,
--               Dhash/Send send.cpp, Dhash/Data `new_dhash` and `dhash_unpack_chord_data`,
--               Dhash/Install and Dhash/Control dhash.cpp, and Dhash/Transfers, Dhash/Stream and
--               Dhash/Protocol transfer.cpp
--   Text        `src/util.c`: texts in static buffers and the printing functions, whose output is a list
--               of pieces (Text/Pieces); Text/Message has `src/message_print.c`
--   Hosts       `src/hosts.c`: the address of the host and of a name
--   Clog        `src/logger/clog.c`: the state of a message, and the clock of the log; Clog/Level has the
--               level of `clog_init`, Clog/Color `src/logger/color.c`
--   Str         `src/str.c`: strings that grow by pieces
--   Grid        `src/grid.c`: markers, boxes and texts in a grid of characters
--   Samples     test data for the modules named Tests
--
-- Words keep their wrap-around: identifiers are bytes modulo 256, a port keeps 16 bits, a ticket's
-- time and a TTL keep 32, a clock difference keeps 64. `long` averages are integers without a
-- bound. Every loop is a recursion on the list, the bytes or the number it counts down, but for the
-- two loops of `file_client/transfer.cpp`, whose calls of UDT may move nothing: they run on fuel,
-- and 2^15, the bound of a name's length, is enough where each call moves a byte. Results of
-- `time`, `get_current_time` and `random` are arguments, and so is what an uninitialised local
-- holds (`junk`). The static counter of `stabilize` is an argument too, and its overflow a fault. A
-- failed assertion, a read through NULL, a read past the end of a field and a write outside of a
-- grid are faults. Logging is left out, but for the texts of addresses that `ping` writes into arrays
-- on the stack, in Stabilize/Round/Sends, which also sends the datagrams through the IPv4 or IPv6
-- socket; Stabilize/Round alone has the steps of a round on the table.
--
-- Not modelled: sockets, events and the parser of the configuration file (I/O and libraries), the
-- generated codec of the messages, the text of the log's leaders, the event loops of the clients
-- and the control socket's dispatch, the curves of `src/grid.c` (floating point), and
-- `src/logger/hashmap.c` and `src/sglib.h`, copies of other projects' libraries.
pub mod Base
pub mod Id
pub mod Server
pub mod Finger
pub mod Clog
pub mod Grid
pub mod Str
pub mod Crypt
pub mod Send
pub mod Chord
pub mod Dispatcher
pub mod Process
pub mod Stabilize
pub mod Samples
pub mod Text
pub mod Dhash
pub mod Hosts
