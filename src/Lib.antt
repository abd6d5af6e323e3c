-- ===== src/Lib.antt =====
-- Hello WebSocket, the C++ implementation (hello-websocket-cpp): a server and a client that speak
-- the binary protocol of PROTOCOL.md over WebSocket frames, both written on bare sockets.
--
-- The program's parts, from the top: ws_server.cpp and ws_client.cpp each run a receive loop for a
-- connection and threads that send on a timer, all through a lambda `sendFrame`. They encode and
-- decode messages with codec.hpp and move them as binary WebSocket messages with ws.hpp, whose
-- functions call `::recv` and `::send` in loops.
--
-- Files and the code that they model:
--   Codec, for hello-websocket-cpp/common/codec.hpp:
--     Constants   the constants
--     Outcome     how a function ends: it returns, throws, or reads outside its buffer (`fault`)
--     KvMap       `std::map<std::string, std::string>` as a sorted association list, `assign` for
--                 `m[key] = val`
--     Writer      `ByteWriter`; a method returns the writer with its buffer extended
--     Utf8        `isValidUtf8`; Utf8/Spec is RFC 3629, Utf8/Valid compares the two
--     Reader      `ByteReader`; a method takes the reader and returns its result and the reader
--     Frame       `encodeFrame`, `decodeFrame`
--     Message     `EchoResult`, `Message`, `encode`, `decodeMessage`
--     Clock       the texts of `nowISO` and `log`
--     Wire        the payloads of PROTOCOL.md as lists of bytes; the modules below it hold the
--                 codec against them
--   Hash, for `detail::sha256` and `hashNumber` of the same file
--   Transport, for hello-websocket-cpp/common/ws.hpp:
--     Socket      `recvAll`, `sendAll`; the record `Socket` is the system's side: the pieces in
--                 which bytes arrive, how many bytes each `::send` takes, and what it has taken
--     Frame       `wsSendBinary`, `wsSendBinaryMasked`, `wsSendControl`, `wsSendClose`
--     Receive     `WSFrame`, `wsRecvFrame`; one definition for each part of the loop's body
--     Http        `recvHttpHeaders`; Http/Exact is on a stream that holds a whole text
--     Sha1        `detail::SHA1`
--     Base64      `base64Encode`, `wsAcceptKey`
--   Strings, for the operations of `std::string` and ctype.h that the programs call
--   Handshake, for the handshake of the same file:
--     Header      `extractHeader`; Header/Lines compares it with a search through the lines,
--                 Header/Ends is about the texts that end with an empty line
--     Accept      `WSServer::accept` from the accepted connection on; its result is the user id, or
--                 `none` for a connection that it closes
--     Connect     `generateWSKey`, `WSClient::connect` from the connected socket on
--     Agree       the two sides together
--     Handles     the members `listenSock` and `sock`, and which handles are open
--   Session, for the two programs:
--     Round       how a round of a receive loop ends
--     Server      `handleClient` of hello-websocket-cpp/server/ws_server.cpp; Server/Runs has the
--                 interleavings of its threads, where the receive thread takes a step for each test
--                 of `active`, each frame and each message; Server/Invariant what all of them
--                 keep, Server/Loop the receive loop as a whole, without the other threads
--     Client      `tryConnect` of hello-websocket-cpp/client/ws_client.cpp from the handshake on;
--                 Client/Runs has the interleavings of its threads, Client/Invariant what they keep,
--                 Client/Loop the session as a whole, with turns of the random thread between the
--                 rounds of the receive loop
--     Exchange    a message of one program through both WebSocket layers to the other's `switch`;
--                 Exchange/Farewell the close frame of a client that ends
--     Heartbeat   a PING and its PONG through both programs
--   Programs, for the functions `main` of the two programs:
--     Port        the port that is read from the environment
--     Main        the server's loop over connections, the client's attempts and its exit code
--   Prelude       lists, options, numbers, bit operations as arithmetic
--
-- Bytes and characters are natural numbers; a byte below 256 is a hypothesis where it matters.
-- Unsigned types keep their wrap-around (`% 2 ^ 32`), signed ones are integers with conversions
-- `to_unsigned` and `to_signed`. Sizes of objects in memory do not wrap; the
-- `int` that `::recv` and `::send` are called with does, and a negative one asks for what Linux moves
-- at once (`int_size`).
--
-- Loops. The loops over bytes are structural recursion. `recv_all len` and `send_all bytes` have as
-- much fuel as there are bytes to move, since a round moves one at least or ends. `ws_recv_frame`
-- has one round more than there are bytes in the stream, since a round that goes on takes two; fuel
-- used up is the answer `none`. The receive loops of the two programs have the fuel that they are
-- given; as many rounds as the stream has bytes, and one more, are enough, for the same reason; fuel
-- used up is the result `fault`. `recv_http_headers` has 8194 rounds, since a round adds a byte and
-- none goes on above 8192. `utf8_loop` has the length as fuel. `decimal` has twenty rounds, which
-- is enough for a number of 64 bits. `pad_zeros` has 64 rounds, one for each remainder of the size.
--
-- Parameters: the random masks and keys, the clock, the ISO time, the paths of the environment and
-- `::shutdown` are arguments.
-- A step of a thread does not stop half way for another. `sendFrame` holds a lock, but the control
-- frames with which `wsRecvFrame` replies do not: that their bytes may stand in the middle of another
-- frame, when `::send` takes only a part of it, is not modelled. On the client's side a whole round of
-- the receive loop is one step, which may have begun before `active` was reset. A read outside a
-- buffer is `fault` in codec.hpp; the arrays of wsRecvFrame have fixed sizes, and its indices are below them.
-- The opcode that a
-- fresh `WSFrame` leaves unset is 0.
--
-- Not modelled: the calls that open and close sockets, which are the system's (their answers are
-- arguments of Handshake/Handles), the sleeps, the start and the joins of threads, the reading of the
-- clock and of the environment, when something is logged, and the implementations in other
-- languages.
pub mod Prelude
pub mod Codec
pub mod Transport
pub mod Hash
pub mod Session
pub mod Strings
pub mod Handshake
pub mod Programs
