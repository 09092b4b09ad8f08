-- ===== src/Lib.antt =====
-- A verification library for the BitTorrent client: its peer wire protocol, its peer sessions, its
-- tracker client, its metainfo files and its commands.
--
-- The program reads a .torrent file (internal/metainfo), asks the tracker for peers
-- (internal/tracker), connects to some of them and exchanges handshakes (internal/peerconn/conn.go
-- and pool.go), and downloads a piece over a session (internal/peerconn/session.go), whose messages
-- are those of internal/peerwire. cmd/bt puts these together: download-piece fetches one piece into a
-- temporary file, compares its SHA-1 hash with the torrent's, and gives it the output's name.
--
-- Files, and the code they are about:
--   Base             what the others share: numbers, lists, tests, `Flow` (a value, an error or
--                    spent fuel, with the state that a call leaves), slices of a byte string
--   Wire/Io          the connection as the bytes that still arrive and an error after them, with
--                    io.ReadFull and io.CopyN on it
--   Wire/Writer      internal/peerwire/write.go: writeFull over any io.Writer
--   Wire/Endian      encoding/binary's big-endian integers
--   Wire/Error       internal/peerwire/errors.go, and the errors of the package as one type
--   Wire/Bitfield    internal/peerwire/bitfield.go
--   Wire/Message     internal/peerwire/message.go: the messages, Frame, and the writers of frames
--   Wire/Frame       internal/peerwire/message.go: ReadFrame
--   Wire/Payload     internal/peerwire/message.go: Have, Request and Piece
--   Wire/Handshake   internal/peerwire/handshake.go
--   Peer/Session     internal/peerconn/session.go: Session, NewSession and Read
--   Peer/Fetch       internal/peerconn/session.go: waitUntilReady and FetchPiece
--   Peer/Dial        internal/peerconn/conn.go: exchangeHandshake and dial
--   Peer/Watch       internal/peerconn/conn.go: the goroutine of watchContext and its end, as steps
--   Peer/Pool        internal/peerconn/pool.go: the goroutines of a Pool, Next and Close, as steps
--   Peer/Start       internal/peerconn/pool.go: newPoolWithDial, its checks and uniqueEndpoints
--   Peer/First       internal/peerconn/conn.go and pool.go: DialFirst, and what Next returns
--   Metainfo         internal/metainfo/parse.go: toTorrentFile and splitPieceHashes, and in
--                    Metainfo/Open the function Open
--   Tracker          internal/tracker/response.go and types.go
--   Tracker/Url      what internal/tracker/client.go uses of net/url on queries
--   Tracker/Client   internal/tracker/client.go and types.go: Announce and buildTrackerURL
--   Net              addresses and endpoints (net/netip)
--   Disk             the file system (os): names, links, inodes, and calls that can fail
--   Command          cmd/bt/main.go: flags, errors, and what the commands share
--   Command/Span     cmd/bt/main.go: where a piece starts and how long it is, on int64
--   Command/Download cmd/bt/main.go: downloadPiece
--   Command/Run      cmd/bt/main.go: run, inspect, announce and handshake
--   Examples         the theorems at concrete inputs, and runs of the code
-- A child module holds what is proved of its parent's definitions. ReadFrame works on a stream and
-- the session's Read loops over it; FetchPiece loops over Read and over the writers of messages, which
-- work on any `Writer`, an interface with the two laws that io.Writer documents.
--
-- A Go function is the function of the same name in snake case. A method's receiver is an argument;
-- where it is changed, the new one is in the result. Errors are the constructors of a type for each
-- package; their text and the wrapping by %w are left out, except where errors.Is looks for a
-- sentinel. Bytes are numbers, below 256 where a theorem says IsBytes. A Go int is 64 bits wide; where
-- it can be negative it is a ℤ. uint32 arithmetic that can wrap is written with % 2 ^ 32.
--
-- Loops that are not over a list run on fuel, and a theorem shows that it is enough: writeFull takes
-- one round more than the data has bytes, since every round but the last sends one; Read takes one
-- more than the stream has bytes, since a frame has four at least; the loops of FetchPiece that read
-- messages take the same bound, and its loop over blocks one more than the piece has bytes.
--
-- What the caller of FetchPiece brings is a record: a writer, the errors of its contexts at each time
-- that the code looks at one, the error of setting a deadline, and the callback with a state of its
-- own. bencode.Decode and netip.ParseAddr are arguments of the tracker's decoder; net/http, and
-- net/url but for the query, are the record Http of the tracker's client. Query, Set and Encode of a
-- query, with the escapes of its bytes, FormatUint and LimitReader are written out.
--
-- A command works on a Host: a disk and the number of calls so far. The n-th call of the file system
-- fails on its own when the Machine of the command says so, and a write that fails may have written a
-- part. The Machine also brings what the commands take from outside: HTTP, bencode, SHA-1, random
-- bytes, parsed flags, the names that CreateTemp tries, and what DialFirst comes to. Its theorems hold
-- for every Machine. downloadPiece runs FetchPiece with the disk for the state of the callback.
--
-- The goroutines of a Pool are one state, and a step is what one of them does between two points
-- where the others can notice it; any enabled step may come next. The calls of dialPeer are steps that
-- end in any of the ways its type allows. DialFirst is a relation over these states: one call of Next
-- in some state that the Pool can come to, and then Close.
--
-- Not modelled: what main and the commands print, beyond the values printed; the parsing of flags;
-- directories as paths and other processes on the disk, so that a name stands for a whole path and
-- only the command changes it. The commands take any outcome of DialFirst, not only those of the
-- relation. In dial and FetchPiece the deadline of watchContext shows only as an error of a read or
-- write, and its goroutine is modelled on its own.
pub mod Base
pub mod Wire
pub mod Metainfo
pub mod Net
pub mod Peer
pub mod Tracker
pub mod Disk
pub mod Command
pub mod Examples
