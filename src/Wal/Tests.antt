-- ===== src/Wal/Tests.antt =====
-- A log with one key, under which one item is committed and one is not.
use forestdb.Common.{
  [], ℕ, ◌∷◌, Bool, false, true, Bool-cases, ◌+◌, ◌≡◌, inl, some, arith, inr, refl, ◌==◌, none,
  List,
}
use forestdb.Wal.{
  act_insert, WalItem, FdbTxn, read_committed, Wal, lookup, wal_find, same_key, found, items_of,
}
use forestdb.Wal.Insert.{take_item, FdbDoc, ins_writer, Config, wal_insert}
use forestdb.Wal.Order.{IsOrdered, AllCommitted, IsValid}
use forestdb.Wal.Changes.{wal_insert-IsValid}
use forestdb.Wal.Commit.{wal_commit, key_of, commit_loop, commit_at, commit_item, SnapHandle}
use forestdb.Wal.Commit.Reverse.{pending}
use forestdb.Wal.Commit.Lookup.{or_else}
use forestdb.Wal.Commit.Publish.{wal_commit-IsValid, wal_commit-publishes}
use forestdb.Wal.Snapshot.{Snapshot, wal_snap_find, wal_snap_find-wal_insert}
use forestdb.Wal.Discard.{wal_discard}
use forestdb.Wal.Discard.Others.{AllItems}
use forestdb.Wal.Discard.Isolation.{IsOwn, Owns, wal_discard-isolates}
use forestdb.Wal.Isolation.{wal_find-wal_insert, wal_insert-isolates}

abbrev config : Config
config = record {
  global_txn_id = 0;
  seqtree_use = true;
  multi_kv = false;
  item_bytes = 120;
  header_bytes = 64;
}

abbrev item : ℕ → ℕ → Bool → WalItem
item id txn_id committed = record {
  id = id;
  txn_id = txn_id;
  snap_tag = 1;
  action = act_insert;
  committed = committed;
  flush_ready = false;
  multi_kv = false;
  flushed_out = false;
  doc_size = 50;
  offset = 4096 + id;
  seqnum = id;
}

abbrev log : Wal
log = record {
  key_map = (7 ∷ [], item 2 5 false ∷ item 1 0 true ∷ []) ∷ [];
  size = 2;
  num_flushable = 1;
  datasize = 100;
  mem_overhead = 305;
  next_id = 3;
}

committed_item-IsOrdered : IsOrdered (item 1 0 true ∷ [])
unfolding IsOrdered AllCommitted
committed_item-IsOrdered = (λ e. tt, λ e. refl, tt)

log-IsValid : IsValid log
unfolding IsValid lookup IsOrdered AllCommitted
log-IsValid key = elim (Bool-cases (same_key key (7 ∷ []))) [
  | inl t ↦
      rw t
        (λ e. absurd (ground (arith, e)), λ e. absurd (ground (arith, e)), committed_item-IsOrdered)
  | inr f ↦ rw f tt
]

-- The transaction of the uncommitted item, and another one.
abbrev writer : FdbTxn
writer = record { txn_id = 5; isolation = read_committed; items = 2 ∷ [] }

abbrev reader : FdbTxn
reader = record { txn_id = 6; isolation = read_committed; items = [] }

-- A deletion, which was appended to the file.
abbrev deletion : FdbDoc
deletion = record { key = 7 ∷ []; seqnum = 9; size_ondisk = 40; deleted = true }

wal_insert-IsValid_example :
    IsValid (wal_insert config ins_writer false 1 0 writer log deletion 8192).0
wal_insert-IsValid_example =
    wal_insert-IsValid config ins_writer false 1 0 writer log deletion 8192 log-IsValid

wal_find-wal_insert_example :
    wal_find writer (wal_insert config ins_writer false 1 0 writer log deletion 8192).0 (7 ∷ [])
    ≡ some (record { offset = 8192; deleted = true; seqnum = 9 })
wal_find-wal_insert_example =
    wal_find-wal_insert config ins_writer false 1 0 writer writer log deletion 8192 log-IsValid refl

wal_insert-isolates_example :
    wal_find reader (wal_insert config ins_writer false 1 0 writer log deletion 8192).0 (7 ∷ [])
    ≡ wal_find reader log (7 ∷ [])
wal_insert-isolates_example =
    wal_insert-isolates config ins_writer false 1 0 writer reader log deletion 8192 (7 ∷ [])
      log-IsValid refl refl (λ e. absurd (omega (arith, e)))

-- A snapshot is open; every commit mark can be written; there is one store.
abbrev snapshots : List SnapHandle
snapshots = record { kv_id = 0; snap_tag_idx = 1; snap_stop_idx = 0; ref_cnt_kvs = 1 } ∷ []

committed_well : (wal_commit config snapshots none (λ k. 0) writer log).0 ≡ true
unfolding wal_commit commit_loop commit_at commit_item key_of lookup same_key take_item
committed_well = refl

wal_commit-IsValid_example : IsValid (wal_commit config snapshots none (λ k. 0) writer log).2
wal_commit-IsValid_example =
    wal_commit-IsValid config snapshots none (λ k. 0) writer log log-IsValid committed_well

key_of_item : key_of 2 log.key_map ≡ some (7 ∷ [])
unfolding key_of
key_of_item = refl

taken_item :
    take_item (λ i. i.id == 2) (items_of (lookup (7 ∷ []) log.key_map))
    ≡ some (item 2 5 false, item 1 0 true ∷ [])
unfolding take_item lookup same_key
taken_item = refl

wal_commit-publishes_example :
    wal_find reader (wal_commit config snapshots none (λ k. 0) writer log).2 (7 ∷ [])
    ≡ some (found (or_else (pending reader (item 1 0 true ∷ [])) (item 2 5 true)))
wal_commit-publishes_example =
    wal_commit-publishes config snapshots none (λ k. 0) writer reader log 2 (7 ∷ [])
      (item 2 5 false) (item 1 0 true ∷ []) log-IsValid refl key_of_item taken_item refl refl

-- A snapshot that was taken when the items stood in the log.
abbrev snapshot : Snapshot
snapshot = record {
  txn_id = 0;
  global_txn_id = 0;
  snap_tag_idx = 1;
  snap_stop_idx = 0;
  active_txns = 5 ∷ [];
}

wal_snap_find-wal_insert_example :
    wal_snap_find snapshot
      (wal_insert config ins_writer false 2 0 writer log deletion 8192).0
      (7 ∷ [])
    ≡ wal_snap_find snapshot log (7 ∷ [])
wal_snap_find-wal_insert_example =
    wal_snap_find-wal_insert config ins_writer false 2 0 writer log deletion 8192 snapshot (7 ∷ [])
      (omega arith)

other_item : AllItems (IsOwn 5 (2 ∷ [])) (item 1 0 true ∷ [])
unfolding AllItems
other_item = (λ e. absurd (ground (arith, e)), tt)

writer-Owns : Owns writer log
unfolding AllItems lookup
writer-Owns key = elim (Bool-cases (same_key key (7 ∷ []))) [
  | inl t ↦ rw t (λ e. (refl, refl), other_item)
  | inr f ↦ rw f tt
]

wal_discard-isolates_example :
    IsValid (wal_discard config writer log).1
    × (wal_find reader (wal_discard config writer log).1 (7 ∷ []) ≡ wal_find reader log (7 ∷ []))
wal_discard-isolates_example =
    wal_discard-isolates config writer reader log (7 ∷ []) log-IsValid writer-Owns refl
      (λ e. absurd (omega (arith, e)))
