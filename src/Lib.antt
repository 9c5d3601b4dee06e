-- ===== src/Lib.antt =====
-- whisperlib: a verification library beside the C++ code.
--
-- Modelled parts and their files:
--
-- * whisperlib/io/logio/logio.h, LogPos: Logio/Position.antt has the positions with the operators of
--   the class (`compare_pos` is Compare, `ltb_pos` is operator<, and so on); Logio/Position/Order.antt
--   compares them with the lexicographic order.
-- * whisperlib/io/logio/logio.cc, LogWriter: Logio/Files.antt has the directory of a log, Logio/Writer.antt the
--   methods of LogWriter, Logio/Run.antt the writer under any calls;
--   Logio/Multiples.antt, Logio/Growing.antt, Logio/Sound.antt and Logio/Draining.antt are
--   proofs. The calls of the system that open a file or write to it may fail, and are an interface,
--   `Disk`: File::Write gives the number of bytes that it wrote, or an error after some of them or none.
--   SetPosition and Truncate succeed. Sizes of files
--   do not reach the end of size_t. WriteBuffer runs on one round of fuel more than there are bytes in
--   buf_, since each round writes one at least, and OpenNextLog on two rounds more than there are files,
--   since each round but the first goes to the next number. Left out: TruncateAt, the lock file, WriteRecord of a
--   MemoryStream or a message, temporary_incomplete_file and LogReader.
-- * whisperlib/raft/raft_server.{h,cc}, the server of the replicated log: Raft.antt and below.
--   Raft/Proto.antt has the messages of whisperlib/raft/RaftProto.proto, Raft/State.antt the members of
--   Server and Node. Each method is a function named after it: Raft/Persist.antt (SaveStateLocked,
--   LoadStateLocked), Raft/Startup.antt (the constructor, Initialize), Raft/Sending.antt (the sending
--   helpers), Raft/Election.antt (the changes of state, Vote and its response, PeriodicCheck),
--   Raft/Commit.antt (the commit position and its waiters), Raft/Replication.antt (Append),
--   Raft/Leader.antt (Append's response, Save). Raft/Run.antt puts the calls together: a server under
--   any sequence of them. The modules below these, Raft/Growth.antt and Raft/Durability.antt are proofs.
-- * whisperlib/raft/raft_client.{h,cc}, Client: Raft/Client.antt has its methods, with the closures that
--   wait in its selector as a queue; Raft/Client/Requests.antt follows its requests.
-- * whisperlib/base/lru_cache.h, LruCache: Lru.antt and below. Lru/Store.antt has the map and the list of the
--   cache, Lru/Cache.antt the methods of LruCache (`put_added` is the Put of four arguments,
--   `remove_entry` the Remove of two); Lru/Consistent.antt, Lru/Steps.antt, Lru/Trimming.antt and
--   Lru/Run.antt are proofs. Keys are numbers. TrimToSize runs on one round of fuel more than the list
--   of keys is long: each round takes a key off the list.
-- * whisperlib/sync/producer_consumer_queue.h, the queue: Queue.antt and below. Queue/Calls.antt has the methods of
--   ProducerConsumerQueue as steps between waits; Queue/Flow.antt and Queue/Bounds.antt are about any
--   interleaving of such steps.
-- * whisperlib/base/free_list.h, FreeList: FreeList.antt and below. FreeList/Lists.antt has the methods,
--   FreeList/Reuse.antt the users that take objects and give them back.
-- * whisperlib/base/cache.h, Cache: Expiring.antt and below. Expiring/Cache.antt has the methods, over a
--   heap of items; Expiring/Bound.antt is about the number of items.
-- * whisperlib/base/strutil.cc, functions on strings: Strings.antt and below, with strings as lists of bytes.
--   Strings/Escape.antt has StrEscape and StrUnescape (`str_escape` is StrNEscape, `to_escape` its set of
--   characters), Strings/Next.antt GetNextInLexicographicOrder, which runs on the length of the prefix: each
--   call of itself is on a shorter one.
-- * whisperlib/io/num_streaming.h, BaseNumStreamer: NumStreaming.antt has the numbers of fixed width that
--   are written to a stream and read from it, NumStreaming/RoundTrip.antt that the latter undoes the former.
-- * whisperlib/io/logio/recordio.{h,cc}, the records: Recordio.antt and below. Recordio/Writer.antt has
--   RecordWriter (`append_stream` and `append_buffer` are the two AppendRecord), Recordio/Reader.antt
--   RecordReader. Recordio/Pieces.antt says what bytes are the pieces of records and the blocks of
--   pieces; the modules from Writing to RoundTrip show that the writer writes them and the reader reads
--   them. The loops run on fuel: those of AppendRecord on two or three rounds more than there are bytes,
--   since each round but the first takes a byte when the content leaves room for one, and that of
--   ReadRecord on one round more than the bytes it has not used, since each round takes one at least.
--   zlib is an interface, `Zlib`.
--
-- How the raft server is modelled. A call takes the server and gives an outcome: done with the new
-- state, or `abort` where a CHECK fails or an access is out of bounds. Calls run under the server's
-- mutex, so they are atomic. What the server sends on its stubs and answers to waiting clients is
-- recorded in its state. The clock is an argument. Terms, ids and positions are integers that do not
-- reach the ends of their types; times and sizes are natural numbers. Products of times with decimal
-- fractions are computed exactly, where the code uses doubles. Debug-only checks (DCHECK) are left out.
-- The one loop of the server that is not structural, which fills an AppendEntries request up to a size, runs on one
-- round of fuel more than that size: an entry has at least one byte, so that is enough.
--
-- The log that a server writes and reads (LogWriter, LogReader) is an interface, `LogStore` of
-- Raft/State.antt, and protobuf's serialisation is part of it. Not modelled: logging, status strings,
-- the registration of services and alarms, and the destructor.
pub mod Prelude
pub mod Logio
pub mod Raft
pub mod Lru
pub mod Queue
pub mod FreeList
pub mod Expiring
pub mod NumStreaming
pub mod Strings
pub mod Recordio
