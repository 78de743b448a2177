-- ===== src/Lib.antt =====
-- A file server and its client: a client shares an AES key with the server by RSA, then sends
-- commands that upload, download, list and delete files, and the server keeps each client's files
-- in a directory named after the client's key.
--
-- Parts and files. Paths are from the repository's root.
--   Base           lists, options and results over the native numbers. `Result` is Go's pair of a
--                  value and an error, and `Error` has a constructor for each error text.
--   Bytes          byte sequences as lists of numbers; encoding/binary's big-endian fields and the
--                  reads of bytes.Reader (Bytes/Reader).
--   Protocol       pkg/protocol/message.go: the types, the message with Serialize and Deserialize
--                  (Message) and Decrypt (Decrypt), MessageBuffer with TryDeserialize (Buffer), and the
--                  bodies of commands (Command), responses (Response) and file chunks (Chunk).
--   Effects        `Action W A`, a step on a world that may fail, and `Process W A`, one that may
--                  also end the process: a panic or log.Fatal is `none`. Processes has the chains
--                  of such steps.
--   Paths          path/filepath on Unix: Clean, Join, IsAbs, Abs and Base, and
--                  strings.HasPrefix.
--   Strings, Flags the functions of package strings that the client calls, and package flag.
--   Crypto         pkg/aes/aes.go, and the two calls of pkg/rsa/rsa.go that the handshake makes.
--   Keys           the rest of pkg/rsa/rsa.go: key generation, PEM and LoadKeypair.
--   Server         World: package os and the connection, as parameters. Directory: getClientDir and
--                  validatePath. Transfer: sendFileInChunks. Handlers: the command handlers and
--                  handle. Handlers/Listed and Transfer/Blocks say what a listing and a transfer in
--                  chunks are, apart from the code. All of these are in pkg/server/commands.go. Loop: the two loops of
--                  HandleRawRequest over any handler of a message. Connection: ConnectionHandler
--                  with handleHandshake, handleCommand and handleMessage. Setup: NewServer. System:
--                  Run, with all connections. These four are in pkg/server/server.go.
--   ServerMain     cmd/server/main.go: the configuration, main up to the start of the server, and the
--                  server's run with the wait for a signal (Life).
--   Client         pkg/client/client.go: the messages, PerformHandshake and the four requests.
--                  Client/Download is receiveFileChunks, and Client/Receive shows what is received of
--                  what the server sends.
--   Runner         cmd/client/cmd/runner/runner.go: the client's command line.
--   ClientMain     cmd/client/main.go: the client's flags, key and main.
--   Session        the client and one connection of the server, joined by a link that delivers at
--                  once what either writes; it stands for the network, which is no part of the
--                  program. Handshake, Upload, Listing, Download and Deletion have one request each,
--                  Refusals and Missing the requests that the server turns down, RoundTrip and Whole
--                  an upload with the download behind it, Gone a deletion with the download behind it,
--                  and Program the command line of Runner over the link. Exchange, Replies, Requests,
--                  Stream, Inbox, Announced, Reports and Working carry them.
--   Tests          a disk, a connection and a cipher by concrete functions, and runs on them.
--
-- How the parts interact. HandleRawRequest reads bytes into a MessageBuffer, takes messages off it
-- and passes each to handleMessage. A handshake sets the key and a command handler; any other
-- message is decrypted with the key, and a command goes to `handle`, which works on the disk
-- through `Os` and answers through `ConnectionSender`, which encrypts and writes. A system has a list
-- of open connections and one world; a step is one Accept, one Read, or one message taken off a
-- buffer and handled, on any one connection. The server's main loads a configuration, makes the
-- server with its key pair, and runs it; the client's main reads the server's public key, shakes
-- hands and turns typed lines into requests.
--
-- Parameters. The world `W` is any type. `Os` has the calls of package os, `CryptoLib` those of
-- the cryptographic packages, `write` is net.Conn.Write, sha256.Sum256 is a function on bytes, and
-- the calls of Read are the list of what they return. What a theorem needs of them stands among its
-- hypotheses (FileFrame, FileStore, Documented), and Tests/Disk has concrete functions with these
-- laws. The client's are `Conn`, for Write and io.ReadFull on the connection, and `ClientOs`, for
-- local files, with the hypotheses Arrives, which holds of a link, and Channel; Tests/Arrivals has
-- functions for Channel, and Tests/Uploads and Tests/Returns have those for a link.
-- `KeyLib` has the calls of crypto/rsa, crypto/x509 and encoding/pem on keys, with the hypotheses
-- KeyCodec and KeyFiles; `dial` and `close` are those of the client's connection, `getenv` is the
-- environment, `build` makes the logger, and `show_error` is the text of an error. In a system each
-- connection has a socket, and `net` writes to it; KeysUsable and QuietWorld say that AES takes no
-- empty key and that files change only by calls on their paths. On a link, Network is what the
-- server wrote and the client has not read, and how what the client writes is cut into the server's
-- reads, with the hypotheses Carries and Delivers; LocalDisk is what the client's open files
-- hold, LocalPaths that a file that was created at a path is what a read of this path gives, and
-- LocalFiles that a handshake leaves the client's files alone. OaepOpens is the encryption of the
-- client's key, GcmSizes the lengths of AES-GCM, Working says that no call fails,
-- and Removes what a removal does. Sound puts those of the server together.
--
-- Numbers and bounds. A byte, a uint32 and a uint64 are natural numbers; a conversion and an
-- arithmetic operation on uint32 takes the remainder. `int` is taken as unbounded. The loop that
-- takes messages off the buffer runs on fuel, one more than the bytes in the buffer: each message
-- takes five bytes at least, and Loop/Invariant shows that the fuel does not run out. The loop over
-- the chunks runs on the number of chunks left, in the client on the number that the first chunk
-- announces. The client's command line runs on fuel, one more than the lines that can be read, and
-- each round reads one; Runner/Ends shows that this is enough.
--
-- Not modelled. Logging; how the calls of one message are interleaved with those of another, since
-- a message is handled in one step; the failures of Listen and Accept, which end the process;
-- what zap does with the configuration of the logger; deadlines; contexts, which are never done here; what the file system does besides what
-- its calls answer; and bytes outside ASCII in the functions of package strings. The files
-- benchmark_test.go and the other tests are no part of the program.
pub mod Base
pub mod Bytes
pub mod Protocol
pub mod Effects
pub mod Paths
pub mod Crypto
pub mod Keys
pub mod Flags
pub mod Strings
pub mod Server
pub mod ServerMain
pub mod Client
pub mod Session
pub mod Runner
pub mod ClientMain
pub mod Tests
