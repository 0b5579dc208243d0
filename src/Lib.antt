-- ===== src/Lib.antt =====
-- The object store of cdump: chunks of data under the SHA-1 of their contents, written to pool
-- files, each of them with an index.
--
-- A Kind (src/kind.hh, src/kind.cc) is four characters in a 32-bit word, and an OID (src/oid.hh,
-- src/oid.cc) the 20 bytes of a digest. A chunk (src/chunk.hh, src/chunk.cc) has both and its data,
-- compressed or not; it writes itself to a stream behind a header of 48 bytes and is read back from
-- one. A FileIndex (src/index.hh, src/index.cc) maps the OIDs of one pool file to offsets and kinds:
-- new entries in memory, the others in sorted vectors that are loaded from the index file. The Pool
-- (src/pool.hh, src/pool.cc) has the files of one directory, each with its FileIndex, appends chunks
-- to the latest and finds a chunk by its OID. The backup decoder (src/decoder.cc) reads the property
-- blocks that describe a backup, and the main program (main/cdump.cc) walks over the backups of a
-- pool and lists them. The Dumper (src/pdump.cc) prints a block of bytes.
--
-- Files:
--   Prelude      lists over native numbers, tests, and `Outcome`, what a call can end in (src/except.hh)
--   Bytes        little-endian and big-endian numbers, `memcmp`
--   Text         `std::hex` output and input as src/oid.cc uses them
--   Kind, Oid    the two value types, one definition for each member function
--   Index        `FileIndex` in memory; Index.Save is `Saver` and Index.Load is `FileData::load`
--   Chunk        the chunk classes; Chunk.Format is their image in a file
--   Pool         `Pool` in its directory: Pool.Files is `Pool::File`, Pool.Open opens a pool, Pool.Recover
--                rebuilds its indices and Pool.Locks is `LockFile` (src/lockfile.hh)
--   Pool.View    what a pool contains, as a map from identifiers to kinds and texts; Pool.Lookup, Pool.Flush,
--                Pool.Chosen (the file that `prepare_write` takes), Pool.Ready and Pool.Refine take the operations one by one, Pool.Persist closes a pool
--                and opens it again, Pool.Durable and Pool.Kept say what an insertion leaves for that,
--                and Pool.Steps and Pool.Run put all of these in a row
--   Pdump        `Dumper`
--   Decoder      `Decoder` and `decode_property`; Decoder.Walk is `BackupWalk` and
--                Decoder.Properties the map of a node's properties; Decoder.Filled says which node a
--                block makes
--   Lister       `Lister` and `main` (main/cdump.cc)
--   Tutil        the texts, chunks, sizes and directories of the unit tests (test/tutil.cc)
--   IndexTest    the unit test of the index (test/test_index.cc)
--   ChunkTest    the unit test of chunks in a stream (test/test_chunk.cc)
--   PoolTest     the fixture of the pool's unit tests (test/test_pool.cc)
--   Tests        the theorems at concrete inputs
--
-- Numbers of w bits are natural numbers below 2 ^ w, and a signed integer is its bit pattern. The
-- machine is little-endian. A value that was never written, a null pointer and an index out of
-- bounds make the outcome `undefined`. OpenSSL's SHA-1 and zlib's `compress2` and `uncompress` are
-- parameters; of zlib, its manual's promises are assumed (IsZlib). `std::sort` of identifiers and
-- numbers, `std::set` and the map of a node's properties are sorted lists; the `std::sort` of the
-- main program and of the chunks' unit test, which leaves open how equal dates and offsets are
-- ordered, is a parameter with its promise (IsStdSort). The unordered map of an index is the list of
-- its entries in the order of its iteration.
--
-- The binary search has fuel for 33 rounds: the range has fewer than 2 ^ 31 rows and at least halves
-- in each. The loop of `decode_property` has the length of its block as fuel, and each round takes
-- three bytes at the least. The theorems show that both end.
--
-- A pool's directory is a list of named byte strings, and a stream on one of its files is the file's
-- mode and its failed state; writes reach the file at once. Boost's parser of the properties file
-- and its generator of identifiers, with the text that `to_string` makes of one, are parameters. The
-- recovery loop has the file's length as fuel, which is enough unless a header says that a chunk
-- takes no bytes.
--
-- The walk over a backup is on fuel: that it never returns for a visitor that does not prune holds
-- for any of it, and a visitor that prunes needs one step. The loop of `make_random_string` has the
-- wanted size as fuel, and each round writes a character. In the unit tests an assertion that fails
-- is `false`, and the function goes on or returns behind it as the source does.
--
-- Not modelled: file operations that fail where the code reports it, among them the `std::rename` at
-- the end of `FileIndex::save`, which throws `Unable to rename tmp file`; the dump of a block of 2 ^
-- 32 - 16 bytes or more, where `Dumper`'s `unsigned` position may wrap; the removal of a temporary
-- directory; the tests that are a run at fixed inputs (of test_kind.cc and test_oid.cc, the bodies
-- in test_pool.cc, and those of compression and moving in test_chunk.cc); and the copy of
-- googletest.
pub mod Bytes
pub mod Chunk
pub mod ChunkTest
pub mod Decoder
pub mod Index
pub mod IndexTest
pub mod Kind
pub mod Lister
pub mod Oid
pub mod Pdump
pub mod Pool
pub mod PoolTest
pub mod Prelude
pub mod Tests
pub mod Text
pub mod Tutil
