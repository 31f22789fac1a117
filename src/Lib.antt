-- ===== src/Lib.antt =====
-- The core of sserialize, a library for compact on-disk data: integer encodings, a byte storage with
-- streaming reads and writes, streams of runs, bit sets, the merge of item indexes, and a union-find
-- structure. Paths are from the repository's root. The code is C++; unsigned arithmetic wraps around,
-- which is written `% 2 ^ w`, and `none` is a thrown exception or a fault, as each file says.
--
-- Base: shared names. Lists, tests and integers over the native numbers, the laws of `&`, `|` and `^`
-- digit by digit (`Base.Bits.bit` is one digit).
--
-- Pack: include/sserialize/storage/pack_unpack_functions.h and src/storage/pack_unpack_functions.cpp.
-- A buffer [d, e) is the list of its bytes. Pack.Varint has the unrolled p_v<uint32_t> and
-- p_v<uint64_t>, Pack.Generic the template p_v, psize_v and p_vu32pad4, Pack.Unpack the template up_v,
-- Pack.Signed the signed types, Pack.Fixed the fixed widths on a little-endian machine. The loops are
-- recursions on the buffer; psize_v has none and recurs on the value, by accessibility.
-- `Pack.Varint.Groups.groups` is the independent description: the value in 7-bit groups.
--
-- Storage: src/storage/UByteArrayAdapter.cpp over UByteArrayAdapterPrivateVector and -Array
-- (src/storage/UByteArrayAdapterPrivates). An adapter is the vector's bytes, the window's offset and
-- length, and the get and put pointers. Storage.Adapter has the window and the pointers, Storage.Stream
-- the reads and writes at the pointers and at positions. Other adapters of the same vector are not
-- modelled: each operation returns the adapter with its storage. Growing has three results: true,
-- false where the size would wrap around, and the exception of a vector above its max_size.
--
-- RleStream: src/containers/RLEStream.cpp. The creator holds one pending run; flush writes it as one
-- word of Storage.Stream, or two; the stream's operator++ reads a word when its run is used up.
-- The constructor's own operator++ is the first step of `read_values`, and the destructor's flush
-- is the end of `put_all`.
--
-- DynamicBitSet: src/containers/DynamicBitSet.cpp, on the bytes of its storage, and the msb of
-- include/sserialize/algorithm/utilmath.h. The bytes that a smaller size leaves in the vector are a field of
-- their own, since growing shows them again; `IsClean` says that they are zero. A new set is a cache
-- of at least one byte. The loop of msb has fuel for the eight bits of a byte.
--
-- ItemIndex: include/sserialize/containers/ItemIndexPrivates/ItemIndexPrivate.h, the generic executer of
-- the set operations; an index is the list of ids that its position iterator gets.
-- ItemIndex.Find: ItemIndexPrivate::find of src/containers/ItemIndexPrivates/ItemIndexPrivate.cpp, and
-- binarySearchKeyInArray of include/sserialize/algorithm/find_key_in_array_functions.h. A container is its
-- size and its values by position; the fuel is one more than the size.
-- ItemIndex.Delta: src/containers/ItemIndexPrivates/ItemIndexPrivateDE.cpp and its header, the
-- delta-encoded index: its creator, and genericOp on two encoded indexes. The loop of genericOp has
-- the fuel of one more than both sizes: each round advances a position. Header has the bytes before the
-- ids, wherever in the destination the index begins.
--
-- ItemIndex.RunDelta: src/containers/ItemIndexPrivates/ItemIndexPrivateRleDE.cpp and its header, the
-- index of differences in runs. The creator holds a pending run in front of its own vector, and
-- Read has putInto, whose loop has fuel for the bytes of the index, since each round reads one.
-- Cursor is SingleState, the reader at one id; Intersect has IndexStates and constrainedIntersect.
-- Each of its loops has the fuel of all ids and two more: each round but the last two passes an id.
-- Operation is genericOp, whose loop passes whole runs; the branch of the smaller side is one
-- definition for both sides. Its loop has the fuel of one more than both sizes. BitSet is
-- fromBitSet, with eight rounds for the bits of a byte, and PutBits is putInto on a bit set.
-- `ItemIndex.RunDelta.Runs` describes the bytes: a list of runs, each a count and a difference. A
-- difference is stored shifted left by one, so those from 2^31 on lose their top bit, and the
-- theorems ask for smaller ones. The assertions of push_back and push_rle, which an optional
-- build compiles in, are left out.
--
-- UnionFind: include/sserialize/containers/UnionFind.h. The vector is a list of entries. find recurs
-- with fuel 2 ^ 28: ranks have 28 bits and grow on the way up, so that many calls are enough.
--
-- Not modelled: floating-point packing, strings, files and memory maps, the other item indexes, the
-- static containers, geometry, search, vendored code and tests.
pub mod Base
pub mod DynamicBitSet
pub mod ItemIndex
pub mod Pack
pub mod RleStream
pub mod Storage
pub mod UnionFind
