-- ===== src/Lib.antt =====
-- A bridge between erssi's fe-web module and clients of the WeeChat relay protocol (the Lith app).
--
-- The program. internal/erssi keeps a WebSocket connection to erssi and hands each message
-- (pkg/erssiproto) to internal/bridge. internal/weechat listens for clients and hands each of their
-- commands to internal/bridge. The bridge's handlers ask internal/translator, which keeps the
-- buffers, to turn messages into objects of the relay protocol (pkg/weechatproto), and send the
-- result to the clients or to erssi.
--
-- The files.
--   Base: bytes, results of Go calls (a value, an error or a panic), fixed-width integers, the
--     string functions of package strings that the program calls, and maps with string keys.
--   Proto: pkg/weechatproto. Types and Encode are types.go (an Object is a constructor for each
--     struct; each Encode method is a clause of `encode`), Encoder and Create are encoder.go. Wire
--     and WireMessage read the format as a client does and are the specification of the encoder:
--     they follow the format, not code of the repository. RoundTrip relates the two, Stream reads
--     the frames of a connection one behind the other, and Typed is on the types of fields.
--   Erssi: Types is pkg/erssiproto/types.go, Crypto internal/erssi/crypto.go and Client
--     internal/erssi/client.go. Decryption and Delivery prove what they give.
--   Translator: internal/translator/translator.go. State holds `Translator` and `BufferState`,
--     Buffers the operations that create and fill buffers, Views the ones that read them, Dump the
--     reading of a state dump. Changes shows each operation to be a sequence of three small steps;
--     Identity, Readings, Stable, Lookup and History prove what follows for pointers and numbers,
--     the readings of the clock, keys, lookups and kept lines. Order is on the sorting of the buffers by
--     their numbers, Kept on the operations that leave lines alone, and Titles on the titles.
--   Bridge: internal/bridge/bridge.go. State holds `Bridge` and the sends that a handler asks for
--     (`Effect`), Handlers the handlers (with RequestStateDump and RequestNicklist of
--     internal/erssi/client.go), Request the two regular expressions of a request for lines, Events
--     a run: any sequence of messages from erssi, commands of clients and rests of handlers. Runs,
--     Asked, Dumps, Topics and Safety prove what holds of all runs. Lifecycle holds Start and Stop with any
--     outcomes of the network, and Calls, Sessions and Restarts what any order of them does.
--     Made, Carried, Answers, Framed and ReadBack are on what the handlers send to the clients,
--     BufferList is on the list of buffers, Lines on the lines they keep, Shown on the lines that are
--     sent, Counts is on the count that a request for lines asks for, and LineRequests follows such a
--     request.
--   Weechat: internal/weechat/server.go. Command holds the scanner's lines and the parsing of
--     one, Session a client with the handling of its commands, Server the clients and the
--     broadcast, Listening the start and the close of the server. Parsing, Gate, Requests,
--     Broadcast, Clients and Peers prove what they do.
--   System: the whole program while it runs. State joins the server's clients, the bridge, the
--     handlers that wait to run and the sends that wait, Steps is the relation of what its
--     goroutines can do next. Privacy, Isolation and Reachable prove what a client that is not
--     authenticated can see, Runs, Traces and Conserved relate a run of the program to one of the
--     bridge, Panics and Modest are on what can end the program, Draining on what waits in it, and Whole on what its
--     connections carry. Typing and Later follow a typed line to erssi, Arrival a message of erssi
--     to the clients, Replies a request of a client to its answer, and Overtaking and Hurried are
--     on what order the goroutines can lose.
--   Main: cmd/bridge/main.go. Flags holds the environment and the command line, as Go's flag
--     package reads it, and Program `main`. Settings and Outcome prove what they do.
--   Examples in Proto, Erssi, Translator, Bridge, Weechat, System and Main, and
--     Bridge/LifeExamples, System/ArrivalExamples and System/LaterExamples, apply the theorems to
--     concrete inputs.
--
-- The model. A string is the list of its bytes. Numbers of fixed width are integers whose
-- wrap-around is written out (`int32`, `incr_int32`); the length prefixes of the encoder keep the
-- low 8 or 32 bits, as the conversions in the code do. A handler takes the state and gives the new
-- state with the list of its sends; a panic in a handler is the effect `crash`. What a handler
-- does under one lock is one step of the bridge: the locks of the translator make each of its
-- operations whole. Three handlers take a second lock after a first (the start of a dump, a join
-- and a topic): these have `left` a rest, with what they have read, and `go_on` is its step. A run
-- is a list of such steps in any order, so that a theorem on `run` holds whatever comes between
-- the two; `run_whole` is the run in which nothing does. Which waiting step runs next, and which
-- waiting send goes out next, is open in `Step`, which even lets a handler go on before its own
-- sends have gone out; so a theorem on `Reach` holds for every order of the goroutines. A write
-- returns, with or without an error. A panic of any goroutine ends the program: the step `breaks`
-- is the read loop's, at a frame that is JSON's null, where UnmarshalJSON reads a field of a nil
-- pointer. A map is an association list without doubled keys; where the code ranges over the map,
-- the model takes the entries in any order, and Translator/Lookup is about all of them; the bridge
-- uses the order of insertion, and the server its clients in the order in which they were
-- accepted. Bridge/BufferList and Weechat/Clients are about these two orders. What comes from
-- outside is a parameter: the record `Host` has the readings of the clock, the case tables of
-- Unicode beyond ASCII and the decoding of JSON nicks, the record `Cipher` has PBKDF2 and AES-GCM,
-- `World` has the connections' writes and what json.Unmarshal makes of a frame (`Decoded`: an
-- error, JSON's null or a message), and `random` is the reading of rand.Read. `IsTicking`, that no
-- two readings of the clock are equal, `IsWriter`, what io.Writer promises, `IsFaultLog`, a note
-- of whether a write on a connection has failed, and `Sender`, that the cipher opens what erssi
-- sealed, are named hypotheses where they are needed. The only fuel is the client's reader of
-- objects, which is given the length of the frame: an object takes at least a byte of it, so this
-- is enough. The scanner of a connection has room for 2 ^ 16 bytes, the default of package bufio.
--
-- Not modelled: the sockets, the TLS and the listener, and logging. The steps of System are those
-- of a started program; Main takes the bridge by its start and its stop, and what it does in
-- between only by whether a goroutine of it panics. Failed sends are logged and ignored by every
-- handler, and so have no effect in the model but what was written.
mod Base
pub mod Proto
pub mod Erssi
pub mod Translator
pub mod Bridge
pub mod Weechat
pub mod System
pub mod Main
