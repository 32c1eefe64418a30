-- ===== src/Lib.antt =====
-- go-fs serves one folder over FTP, SFTP, HTTP, WebDAV, S3 and TFTP, disk images over NBD, and package
-- repositories. This library models the parts of it that keep a protocol, an order or a shared count,
-- and proves what makes them correct. Each file names the source file it is about; paths are from the
-- root of the repository.
--
-- The TFTP server, internal/tftp:
--   Tftp.Netascii (netascii.go): netasciiReader and netasciiWriter with their state; Read is
--     `netascii_read`, Write `netascii_write`, Flush `flush`. Wire states the wire form, Reading and
--     Writing are about either side. Tftp.Streams has the readers and writers they stand on, as
--     records of a state and a function, and a loop that drains a reader.
--   Tftp.Packet (packet.go): parseRequest and the encodings; Layout has the parts of a request.
--   Tftp.Options (options.go): `negotiate`; Bounds, Answers and Agreement are about its results.
--   Tftp.Download (read.go): a read transfer. readChunk, sendWindow, fillAndSend and ack are functions
--     on the record `Download`, whose field `wire` is the packets that were sent; an answer of the
--     client is a call of `ack`. Blocks cuts a file in blocks, Filling and Sending are about the window,
--     Delivery has the invariant, Keeping what a window leaves as it is, Acknowledging, Completion and
--     Truncation the theorems. Running has handshake and run over the events of the socket, Serving and
--     Handshaking what holds of them.
--   Tftp.Await (read.go): awaitPacket over the events of its socket; Patience has its theorem, Hearing
--     what it comes to where the client falls silent.
--   Tftp.Upload (write.go): a write transfer over the events of its socket, its sink one of Tftp.Sinks;
--     Receiving is about one packet, Delivery about a client that sends in order, Order about any.
--   Tftp.Server (server.go): admit, begin, release, Shutdown; Tftp.Server.Handlers has dispatch,
--     handleRead and handleWrite. The mutex makes each of them one step: Slots is the relation of these
--     steps, a request at a time with transfers that end in between, Limits its invariant, Handling what a
--     datagram leaves that starts no transfer.
-- The repository of rpm packages, internal/rpm/version.go:
--   Rpm.Version (Vercmp), by Tokens and Comparing a comparison of token lists, by Composing and Order
--     an order, by Numbers one of numbers; Rpm.Evr (EVR, parseEVR, Compare), its Printing and Order.
-- Disk images, internal/disks/locks.go:
--   Disks.Locks: the registry, a round of acquire, and release. Leases says what the leases of an image
--     come to, Keeping and Releasing how that changes, Worlds is the relation of the steps, Compatible
--     the table of modes, Granting the theorems.
-- The login lock, internal/httpd/throttle.go:
--   Httpd.Throttle: locked, failed, evict and clear on the map of addresses; Counting and Size.
-- Syncing, internal/syncer/plan.go:
--   Syncer.Plan: planOneWay with its two loops and order. OneWay has the first loop by paths, Alignment
--   the whole plan. Syncer.Both: planBoth; Folders is about its first loop, Above about the folders
--   above a path, Sorting and Removal about the second loop, Sparing about what it removes.
-- Path resolution, internal/vfs/vfs.go:
--   Vfs.Paths: what the package uses of Go's strings and path/filepath, with Splitting and Cleaning about
--     it; Vfs: Normalize, Resolve, resolveReal and the tests they combine. Normal is about normalized
--     paths, Real about resolveReal, Within about the test of the base, Confined about
--     what Resolve lets through.
-- Vaults, internal/cryptomator/content.go:
--   Cryptomator: the sizes, Writer and Reader over sealed chunks; Sizes, Chunks, Locating and Offsets are
--     about lengths, Writing and Closing about the Writer, Reading about the Reader, which RoundTrip makes
--     a reader of Tftp.Streams; Seeking has Seek.
-- The NBD server, internal/nbd:
--   Nbd (proto.go, image.go): requests, the bytes of replies and the interface of an image. Handling
--     (transmission.go) has handle, a function per command, on what requests change; Replies, Errors and
--     Answers are about the replies, Rules has the walk over the commands that the proofs share, Confined
--     is about what changes, Storing and ReadingBack about writes that are read back. Memory is an image
--     in memory. Budget (image.go, transmission.go) has the budget and the steps of the reader and the
--     workers of transmit, Budget.Accounts their invariant.
-- Base has what these share: Boolean tests and lists over the native numbers, texts as lists of
-- bytes, decimal numbers, integers. Each top module has Tests.
--
-- How the code is modelled. A string or a slice of bytes is a list of numbers. An int that the code
-- keeps at 0 or above is a natural number, and the wrap-around of a uint16 and a uint64 is written
-- out. State goes from argument to result, errors are values. A Go map that is only looked up in is a
-- function or a Boolean test, and one that is walked is a list. Logging is left out, as is the text
-- that only a log shows. Each mutex section is one step; steps of different goroutines are the
-- constructors of a relation, in any order.
--
-- Loops and fuel. The loop of Vercmp takes a byte of a side in each round that goes on, so the fuel
-- is the length of both sides and one. fillAndSend adds a chunk in each round and stops at the
-- window, so the window is its fuel. The loops of an upload, a download and a handshake take an
-- event in each round, so the number of the events and one is their fuel. The loop of resolveReal
-- makes its path shorter in each round, so the length of the path and one is its fuel. The Writer of
-- a vault takes a byte in each round, or flushes a buffer that was full at the start, so the length
-- of what is written and two is its fuel. keep climbs to a shorter path in each round, so the length
-- of the path is its fuel. A decimal text has 20 digits at most, enough for an int64. The other
-- loops recur on the list that they walk.
--
-- What is a parameter: the file and its errors (Tftp.Streams), the path resolution, system calls and
-- sockets of the handlers (Files), the links of the file system and the folding of case (System), AES-GCM
-- (Aead), the image of a disk (Image), the clock, random ids and nonces.
--
-- What is not modelled: the negotiation of an NBD connection and its buffers, the wait of a disk lease
-- for the session it takes over, and the other packages of internal. They are listed with their
-- reasons in the project's manifest.
pub mod Base
pub mod Tftp
pub mod Rpm
pub mod Disks
pub mod Httpd
pub mod Syncer
pub mod Vfs
pub mod Cryptomator
pub mod Nbd
