-- ===== src/Lib.antt =====
-- Hivekit: reading, editing, repairing and merging Windows registry hive files.
--
-- A hive is one file: a header page (REGF), then bins (HBIN) that are tiled by cells; the cells hold
-- key records (NK), value records (VK), lists of offsets to them and data. The program maps the file
-- into memory and works on its bytes. The parts modelled here, from the bottom up:
--
--   Common    what Go and the machine provide: 64-bit ints with wrap-around (Common/Int), byte
--             buffers and little-endian words in them (Common/Bytes, Common/Points), and the result
--             of code that may return an error or panic (Common/Results).
--   Buf       internal/buf/bounds.go: AddOverflowSafe, MulOverflowSafe, CheckListBounds, Slice, Has.
--   Format    internal/format: encoding.go (Format/Encoding), vk.go (Format/Vk), nk.go (Format/Nk)
--             and list.go (Format/Lists), hbin.go and cell.go (Format/Hbin), align.go
--             (Format/Align), regf.go (Format/Regf) and time.go (Format/Time). The decoders use the
--             checked reads of encoding.go and the bounds tests of internal/buf. Format/Stores is a
--             run of the statements by which a writer fills a buffer.
--   Merge     hive/merge/v2/write/cells.go: the writers of new NK, VK, LH and value-list payloads,
--             each as its run of stores; they are read back by the decoders of Format.
--             hive/merge/v2/write/subkeymerge.go: the two-pointer merges of sorted subkey entries, by
--             name (Merge/Names) and by hash (Merge/Subkeys).
--             hive/merge/v2/trie: the trie of the operations (Merge/Trie), which Build sorts by key,
--             with its index law (Merge/Trie/Index). hive/merge/v2/plan: Estimate (Merge/Plan), whose
--             total is asked of the bump mode of Alloc and serves its manifest (Merge/Plan/Served).
--   Dirty     hive/dirty/dirty.go and flush_unix.go: the tracker of dirty ranges, which pages they
--             come to, and what a flush hands to msync.
--   Tx        hive/tx/tx.go: the transaction manager, Begin, Commit and Rollback, over the bytes of the
--             hive and the tracker of Dirty. It writes the sequence numbers, the time stamp and the
--             checksum of the header page in the order of the protocol.
--   Verify    hive/verify/verify.go: SequenceNumbers and Checksum, by which a reader tells a hive that
--             was committed from one that was left inside a transaction, and AllInvariants with the
--             checks of the header, the bins, their cells and the file's size (Verify/Bins).
--   Alloc     hive/alloc/bump.go: the bump mode of the allocator, and from fastalloc.go the growth of
--             the hive by a bin, which fills the header page and the new bin that Verify checks.
--   Bigdata   hive/bigdata/db.go, hive/db.go and internal/format/db.go: the header and the block list
--             of a value that is larger than a cell. Bigdata/Writer is Store of hive/bigdata/writer.go
--             over the allocator's interface, a record of operations, and Bigdata/Reader is valueDB of
--             internal/reader/reader.go; Bigdata/RoundTrip reads what the writers leave in cells.
--   Index     hive/index/numeric_index.go: the index of keys and values by parent and hashed name;
--             Index/Laws reads it as a map of names.
--   Repair    internal/repair: the types and the module interface (Repair/Types), transaction.go
--             (Repair/Log), validator.go (Repair/Validator) and engine.go (Repair/Engine). The
--             engine writes through a module, logs the window that the module may write, and rolls
--             the log back when a repair fails. nk.go, vk.go, hbin.go and regf.go are the four modules
--             (Repair/Modules), which internal/reader/repair.go registers.
--   Regmerge  internal/regmerge: the optimiser of edit operations. Regmerge/Paths has the paths,
--             Regmerge/Optimizer the scan from right to left, Regmerge/Ordering the grouping by key.
--             Regmerge/Optimizer/Fate says what a list of operations does to one registry value.
--   Regtext   internal/regtext: the text of .reg files. Regtext/Text has the escapes, Regtext/Hex the
--             data in hexadecimal, Regtext/Values the line of a value as emit.go writes and parser.go
--             reads it, Regtext/Parser the loop of ParseReg over the lines and the decoding of lexer.go,
--             Regtext/Export ExportReg over types.Reader. Regtext/Lines says how a scanner splits a
--             text. The operations are those that Regmerge optimises.
--
-- Function names are those of the source in snake_case: `decode_nk` is DecodeNK. A method's receiver
-- is an argument, and the new state is part of the result. A function that returns an error gives an
-- Outcome: `ok`, `err` with the kind of the error, or `panic`; its wrapped message is left out.
-- A method that changes a buffer in place returns the buffer as it leaves it, errors included.
--
-- Bounds. An `int` of an argument that the source does not keep positive is a ℤ with the 64-bit
-- wrap-around written out; offsets and lengths that come from a buffer are ℕ. Every loop is
-- structural recursion over what is left of its list or its count, except six, which take fuel
-- and give none when it ends: the loop of calculateTotalNeed in Bigdata/Writer needs more than
-- there are blocks; the walk over the ancestors of a path in Regmerge/Paths has one more than the
-- path has bytes, and in Verify/Bins the loop over the bins has one more than the file and the
-- loop over the cells one more than the bin has bytes; each round moves by at least one byte;
-- the loop of parseHexBytesFromBytes in Regtext/Hex has one more than there are bytes, and exportKey
-- in Regtext/Export needs as much as keys stand one below the other. An
-- int32 of the allocator is its bit pattern. Where a theorem bounds a buffer's length (2^62 or
-- 2^63) it is a length that memory cannot reach.
--
-- Parameters. msync, fdatasync and the context are what the environment answers (`Answer`). The
-- repair modules are a parameter by the methods of their interface; the order in which Go ranges
-- over the map of modules is the order of a list, for any list. time.Now is the argument `now`.
-- strings.ToUpper and strings.ToLower are arguments of the path normalisation, and the two calls of
-- sort.Slice are arguments of the ordering, with the promise of its documentation (IsSorter in
-- Common/Sorting). What the system says to the growth of the file is an argument of the allocator.
-- strings.ToLower is an argument of the trie too, and so is the hash of a name that is not ASCII. The
-- binary search of the slices package is a walk over the sorted children to the same place. valueDB
-- takes the access to the payload of a cell as an argument, and Store the operations of the allocator
-- (Cells). For the text of .reg files utf16.Encode, utf16.Decode, bytes.TrimSpace (TrimsSpace), the
-- bufio.Scanner (IsScanner), the two calls of sort.Slice in exportKey (Permutes) and the methods of
-- types.Reader are arguments.
-- The environment of a commit is a CommitEnv: what the context says at each place where the
-- commit asks it, and what the calls return.
--
-- Not modelled: the positional merge of subkeymerge.go; the free lists of the allocator, which are
-- one list of the cells entered into them, and Alloc and Free over them, so that Store is not run
-- over the allocator itself; the other indexes, the walkers,
-- the edits and the merge sessions over the mapped file, which come on top of these parts; the
-- second parser of the registry text, which goes through a Windows-1252 decoder of another module, and
-- its Codec; the command line, the terminal UI, the bindings and the printers, which
-- are input and output only. Of internal/repair the writer and the side-effect check are left out; of
-- hive/dirty the variants for other systems.
pub mod Common
pub mod Buf
pub mod Format
pub mod Dirty
pub mod Regmerge
pub mod Regtext
pub mod Repair
pub mod Verify
pub mod Tx
pub mod Merge
pub mod Alloc
pub mod Bigdata
pub mod Index
pub mod Tests
