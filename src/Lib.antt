-- ===== src/Lib.antt =====
-- A model of parts of ForestDB, a key-value storage engine whose main index is a trie of B+trees in
-- an append-only file, with reuse of stale blocks.
--
-- The program. `src/forestdb.cc` is the API; `src/kv_instance.cc`, `src/iterator.cc` and
-- `src/transaction.cc` stand on it. Updates go to the write-ahead log (`src/wal.cc`) and to documents
-- in the file (`src/docio.cc`); a flush moves them into the trie (`src/hbtrie.cc`) over B+trees
-- (`src/btree.cc`), which live in blocks (`src/btreeblock.cc`) behind a cache (`src/blockcache.cc`)
-- and the file manager (`src/filemgr.cc`). Blocks that no reader needs are collected by
-- `src/staleblock.cc` and handed to the superblock (`src/superblock.cc`), which keeps a bitmap of
-- reusable blocks, allocates from it, decides when to collect more, and stores itself in the first
-- blocks of the file in turn, so that the newest readable one is found after a crash.
--
-- What is modelled, by file of this library and part of the source:
--
--   Version                   src/version.cc, with the magic numbers of src/internal_types.h
--   Superblock.State          `struct superblock`, `struct sb_rsv_bmp` and the fields of
--                             `struct filemgr` and of documents that superblock.cc uses
--   Superblock.Bitmap         sb_bmp_mask_init, _is_bmp_set, _sb_bmp_update, sb_bmp_set, sb_bmp_clear
--   Superblock.Index          the AVL tree of bitmap nodes as its ascending list of keys;
--                             _add_bmp_idx, _free_bmp_idx, _construct_bmp_idx
--   Superblock.Switch         sb_switch_reserved_blocks
--   Superblock.Alloc          sb_alloc_block
--   Superblock.Reclaim        sb_reclaim_reusable_blocks, sb_reserve_next_reusable_blocks
--   Superblock.Return         sb_return_reusable_blocks
--   Superblock.Decision       sb_check_block_reusing, sb_check_sync_period, sb_update_header,
--                             sb_reset_num_alloc
--   Superblock.Writable       sb_bmp_is_writable
--   Superblock.Barrier        sb_bmp_barrier_on, sb_bmp_barrier_off, sb_bmp_change_begin and
--                             sb_bmp_change_end as atomic steps of any number of threads
--   Superblock.Format         _bmp_size_to_num_docs, _sb_init, sb_write, _sb_read_given_no, down to
--                             the bytes of the block (byte order of src/forestdb_endian.h)
--   Superblock.Recovery       sb_read_latest, sb_sync_circular
--   FileManager               filemgr_alloc, filemgr_alloc_multiple of src/filemgr.cc
--   FileManager.Stale         filemgr_add_stale_block, filemgr_actual_stale_length,
--                             filemgr_actual_stale_regions, filemgr_mark_stale of src/filemgr.cc
--   FileManager.Interface     the calls of src/filemgr.cc that documents make, and what they promise
--   FileManager.Offset        filemgr_is_writable, filemgr_write_offset, filemgr_read and
--                             filemgr_alloc_multiple_cond of src/filemgr.cc, with the block cache
--                             disabled; Offset.Laws fills the interface with them
--   Docio, Docio.Append       docio_append_doc_raw, _docio_fill_zero of src/docio.cc
--   Docio.Read                _docio_read_through_buffer, _docio_read_doc_component of src/docio.cc
--   Docio.Layout              the links between blocks, `struct docblk_meta`
--   Docio.Uncached            documents over the file manager of FileManager.Offset
--   Docio.Memory              a file manager in memory, for the tests
--   Hbtrie.Key                reformed keys and _hbtrie_find_diff_chunk of src/hbtrie.cc
--   Wal                       the items of src/wal.cc by key, _wal_find by key without a snapshot; `struct wal`
--   Wal.Insert                _wal_insert of src/wal.cc, for every caller
--   Wal.Snapshot              _wal_get_snap_item, _wal_item_partially_committed of src/wal.cc
--   Wal.Commit                wal_commit, _wal_can_discard of src/wal.cc
--   Wal.Discard               wal_discard of src/wal.cc
--   Stale.Merge               _insert_n_merge of src/staleblock.cc, over the ascending list of an AVL tree
--   Stale.Reuse               the loop of fdb_get_reusable_block that cuts blocks out of stale regions
--   Btree.Node                a node with keys of a fixed length: _btree_find_entry, _btree_add_entry,
--                             _btree_remove_entry of src/btree.cc over src/btree_kv.cc
--   Btree.Split               the shares of the new nodes in _btree_split_node, _copy_kv, _get_nth_idx
--   Btree.Find                btree_find
--   Common                    lists with native numbers, byte buffers, bit operations, 64-bit words
--
-- How. A structure is a record and a function of the source is a function of the same name on it, a
-- leading underscore dropped. A pointer that may be NULL is an option. Memory that is freed is a list
-- that is emptied. Calls into the file manager that change other components (marking a document
-- stale, adding a stale block, syncing) are returned as a list of `Call`s in their order. What
-- another component answers (regions of stale blocks, the oldest active header, the space in use, the
-- outcome of a system call) is an argument of the function that asks. The checksum of
-- src/checksum.cc is a parameter of Format, Recovery and FileManager.Offset, of which only the 32 bits
-- of its result are assumed. A block of a superblock whose numbers of bitmap documents lead behind its
-- buffer, which the source reads before it compares the checksum, is excluded in Recovery.
--
-- Integers. 64-bit arithmetic wraps around where a definition uses `add64`, `sub64` or `mul64`;
-- where plain addition stands, block numbers, positions and sizes are far below the limit. The
-- `uint8_t` in _construct_bmp_idx is kept, as `u8`. What has the type `uint32_t` keeps its wrap-around,
-- written `% 2 ^ 32`: the length of a stale region, and the offsets, lengths and numbers of blocks of
-- a document in Docio. The theorems on them name the bound below which nothing wraps.
--
-- Loops. Loops with a counter are recursion on the number of rounds that are left. The search for
-- the next node in sb_alloc_block has fuel of two more than the length of the index, which loses
-- an entry in each round but the first; the jump back to its start is taken at most once, since a
-- switch leaves no reserve. The loop of sb_return_reusable_blocks has fuel for one round per
-- block, and its block number grows in each. The binary search in a node has fuel of the number of
-- entries, and its interval shrinks in each round; without fuel it returns none, and its theorem says
-- that it returns an index. The loop over the blocks of a document has fuel of one more than its
-- length, of which every round but the first takes a byte at least. The theorems on these functions
-- do not assume that the fuel is enough.
--
-- Concurrency. All functions but those of Barrier run on their own, as they do under the file's
-- locks. In Barrier every access to a shared variable is a step, any thread may take the next one,
-- and memory is sequentially consistent, as for atomic operations of C++ without an ordering.
--
-- Documents. Docio stands on any file manager that keeps the promises of FileManager.Interface; its
-- state and its writes, which may fail, are those of the file manager. The functions of
-- src/filemgr.cc keep them with the block cache disabled, for writes in every state and for reads in
-- a state where no block ends like a node of a B+tree; `pread` and `pwrite` of the operating system
-- are parameters there. A buffer is a list of bytes.
-- The loop that reads has fuel of one more than the length, and every round but the first reads a
-- byte; the allocator is asked for the number of blocks that the source computes.
--
-- Log. The headers of all shards are one list, since the checksum of a key chooses its shard. Keys
-- are compared byte by byte; a custom comparison is not modelled. The item's address is a number, its
-- snapshot is the tag, and the tree of items by sequence number is seen as `Call`s.
--
-- Not modelled: flush, opening and closing of snapshots and iteration of the log, the lengths and
-- checksums of documents and the order of their parts, the documents that hold the bitmap
-- (sb_bmp_append_doc, sb_rsv_append_doc, sb_bmp_fetch_doc), sb_init, the documents that hold stale
-- regions, the cascades of btree_insert and btree_remove through the levels of a tree, keys of
-- variable length, the metadata of the trie and its operations, the rest of the file manager,
-- logging, and the components of the program that are not in the table above. The AVL tree
-- (src/avltree.cc) is a library of its own; the parts that use it see the ascending list of its
-- items.
pub mod Common
pub mod Version
pub mod Wal
pub mod Superblock
pub mod FileManager
pub mod Hbtrie
pub mod Stale
pub mod Docio
pub mod Btree
