-- ===== src/Lib.antt =====
-- A verification library for the video downloader and its collaboration service: a command-line
-- program that downloads videos directly or by yt-dlp and keeps a history, and a server to which
-- the devices of a team connect over WebSocket, where they share download tasks, and which keeps
-- its state in SQLite.
--
-- The parts, and the files that model them
--   * src/main.rs: Cli (the arguments), Cli/Paths (the output directory), Cli/Download (one URL, by
--     yt-dlp or directly), Cli/Loop (`run`) and Cli/Commands (`main` and the commands on the history).
--     Proofs: Cli/Outcome (the history after downloads) and Cli/Settings (which settings matter).
--   * src/types.rs: Media (records and builders), Media/Names (`sanitize_filename`) and Media/Units
--     (`format_bytes`). Proofs: Media/Safe (names) and Media/Units.
--   * src/downloader.rs: Video. Proofs: Video/Ranges (what hosts send), Video/Ceil and Video/Segments
--     (how segments tile a file), Video/Whole and Video/Ignored (an attempt at a host that honours
--     ranges or ignores them), Video/Retry and Video/Recovers (the attempts), and Video/Resumed.
--   * src/yt_dlp.rs: YtDlp (the command lines), YtDlp/Json and YtDlp/Info (the output).
--   * src/history.rs: History. Proofs: History/Saved (the files) and History/Bookmarks.
--   * src/config.rs: Config. Proofs: Config/File.
--   * src/collaboration/types.rs: Types (records and messages) and Float (`f64`).
--   * src/collaboration/crypto/hashring.rs: HashRing, with the operations of `HashRing`; the
--     `BTreeMap` is its entries in ascending order of the key. Proofs: HashRing/Nodes (the order)
--     and HashRing/Owner (who owns a URL).
--   * src/collaboration/server/db.rs: Db/Schema (the tables), and a file for each group of methods:
--     Db/Teams, Db/Devices, Db/Tasks, Db/Messages. Proofs: Db/Integrity (the constraints of the
--     schema), Db/Reading (what queries return), Db/NewTask (the insertion of a task),
--     Db/Waiting (offline messages).
--   * src/collaboration/server/handler.rs: Handler/State (the sessions and what they are sent),
--     Handler/Teams, Handler/Tasks and Handler/Timeouts (a function to each handler), and
--     Handler/Dispatch (`handle_message`, and the events of src/collaboration/server/ws.rs).
--     Proofs: Handler/Claims (one task, two claimants), Handler/Kept and its modules with
--     Handler/Invariants (how a property of the database is carried through every history),
--     Handler/Coherence, Handler/Release, Handler/Ghosts, Handler/FirstTeam, and Handler/Interleaved
--     (the statements of all tasks of the server, in any order) with its modules Fits and Stale.
--   * src/collaboration/crypto/auth.rs: Auth. The authentication phase of ws.rs: Auth/Greeting.
--     Proofs: Auth/Tokens (text and verification of a token) and Auth/Phase (who is admitted).
--   * src/collaboration/transfer/http_server.rs: Files/Limiter, Files/Cors, Files/Range, Files/Serve,
--     Files/Server (a request from its lines to its answer) and Files/Request (how it is read, and
--     what a connection is answered while it is open). Proofs: Files/Rate (the limit in
--     every window), Files/Served (ranges), Files/Headers and Files/Origins (what is read of the
--     headers) and Files/Paths (which files are sent).
--   * src/collaboration/transfer/downloader.rs: Chunks. Proofs: Chunks/Received (the body of an
--     answer), Chunks/Head (downloads over `reqwest`), and, for a length that is known,
--     Chunks/Resume and Chunks/Parallel.
--   * src/collaboration/client/ws.rs: Client, and Client/Files (the file handler). Proofs:
--     Client/Silence (what subscribers receive), Client/Reconnect, and Client/Files.
--   * src/collaboration/client/queue.rs: Queue. Proofs: Queue/Steps (the ways an operation ends),
--     Queue/Urls (distinct URLs, and the merge with the server) and Queue/Saved (the state file).
--   * src/collaboration/discovery/stun.rs: Stun. Proofs: Stun/Xor (exclusive or), Stun/Answers (the
--     parser of an answer) and Stun/Nat (the test of the NAT).
--   * Prelude: Boolean tests, options and results, iteration over lists, texts, and decimals.
--   * The files called Tests hold concrete runs.
--
-- How they interact. `Server` is `MessageHandler`: a database, the sessions, the hash ring, and
-- `outbox`, which records what each session has been sent. An `Event` of Handler/Dispatch is a
-- connection that has authenticated, a text message that parses, the end of a connection, or a tick
-- of the timeout task; `run` folds a list of events over a server. Events are handled one after the
-- other there, each to its end; Handler/Claims and Handler/Interleaved say what holds, and what
-- does not, where handlers overlap. Each event comes with an `Env`: the time, the fresh values that
-- are drawn, and the errors that SQLite reports while it is handled, so a statement about all lists
-- of events is one about all clients, clocks and failures. A `Client` writes the token of Auth and
-- reads messages into channels; its file handler calls Chunks, whose `Peer` stands for a file
-- server, seen through `reqwest`. `Cli.Loop.run` calls yt-dlp with the arguments of YtDlp or
-- downloads by Video, names files by Media and writes to History, in the directory that Config
-- gives.
--
-- What a definition stands for. A `Uuid` is its number and the nil one is 0; a `DateTime` counts
-- nanoseconds; an `f64` is its bit pattern; a path is its text. An SQL statement has its documented
-- meaning on lists of rows in the order of insertion. A failed statement changes nothing.
-- `foreign_keys` says whether the SQLite that is linked enforces them. `version += 1` wraps at 2 ^
-- 64. A file that the program writes holds the text of a value, or, after a write that was cut off,
-- some other text; `float` says which number is read where one was written, if it is a number and
-- not `null`. Where the code prints an error or the progress, the model goes on. The body of an
-- HTTP answer is a stream of chunks that the first error ends, of the network or of the disk; the
-- progress of parallel tasks is not interleaved, since each has a file of its own. In Stun a
-- function returns `none` where the code panics, and `find_address` has an outer `none` where its
-- steps do not reach the end.
--
-- Parameters, for code that is not in the repository: the two hashes of `DefaultHasher` (`Hasher`),
-- the parser of IP addresses (`parses_ip`), and the random draws of an invite code (`draw`,
-- documented to be below the length of the alphabet). The `uuid` and `hmac` crates are `Codec`,
-- whose documented behaviour is `IsCodec`; the file system at a moment is a `FileSystem`; the
-- parsers of identifiers and of URLs of a file request are `parse_uuid` and `host_of`, and the
-- lines of its text `lines_of`. HTTP servers are `Peer` and `Host`, the network of STUN is `Net`, a
-- connection of the client meets a `Link`, and a run of the program a `World`. The tables of
-- Unicode are `is_alphanumeric` and `to_lowercase`; arithmetic on `f64` is `ceil_div`, `Arithmetic`
-- and `to_f64`.
--
-- Loops are over lists and texts, or take fuel. The printing of a `u64` has twenty digits, which
-- Prelude/Decimal proves enough; the search for an attribute in Stun has as many steps as there are
-- bytes, which Stun/Answers proves enough; retries and reconnections count down what the code
-- counts up.
--
-- Not modelled: the order in which overlapping handlers send their messages, except in
-- Handler/Claims and Handler/Interleaved/Stale; the capacity of the channels, so no message is
-- dropped; the JSON, TOML and SQLite formats; what is printed; the start of the server and of the
-- team commands in src/main.rs; src/collaboration/client/discovery.rs; the user interface
-- (src/gui.rs and src/theme.rs); and the parsers of the output of yt-dlp at the end of
-- src/downloader.rs, which nothing calls.
mod Prelude
pub mod Float
pub mod Types
pub mod HashRing
pub mod Auth
pub mod Files
pub mod Queue
pub mod Db
pub mod Handler
pub mod Media
pub mod History
pub mod Config
pub mod Chunks
pub mod Video
pub mod Stun
pub mod YtDlp
pub mod Cli
pub mod Client
