-- ===== src/Wal/Commit/Publish.antt =====
-- Who sees what `wal_commit` has committed.
use forestdb.Common.{
  [], ℕ, Bool, List, Option, ◌≡◌, true, false, some, none, ◌==◌, ◌∷◌, if◌then◌else◌, refl, arith,
  ap, subst, ◌∙◌,
}
use forestdb.Wal.{
  WalItem, FdbTxn, Wal, lookup, put, items_of, wal_find, found, found_of, find_items,
}
use forestdb.Wal.Insert.{Config, Call, take_item}
use forestdb.Wal.Order.{IsValid, put-IsValid, IsOrdered, lookup-put_same}
use forestdb.Wal.Commit.{
  SnapHandle, drop_items, commit_items, commit_item, commit_at, commit_loop, wal_commit, key_of,
  mark_succeeds, count_item,
}
use forestdb.Wal.Commit.Reverse.{commit_items-IsOrdered, pending}
use forestdb.Wal.Commit.Lookup.{
  Rest, take_item-Rest, key_map-drop_items, or_else, not_flushed, find_items-commit_items,
}

-- An outcome that leaves the log in order, if it is a success.
abbrev Good : Bool × Wal × List Call → Type 0
Good out = out.0 ≡ true → IsValid out.1

choose-Good :
    (c d : Bool) (a b e : Bool × Wal × List Call)
    → Good a
    → Good b
    → e.0 ≡ false
    → Good (if c then a else if d then b else e)
choose-Good true d a b e g h f = g
choose-Good false true a b e g h f = h
choose-Good false false a b e g h f = λ t. absurd (ground (arith, f, t))

same_log :
    (c : Bool) (a b : Bool × List ℕ × Wal × List Call) (wal : Wal)
    → a.2 ≡ wal
    → b.2 ≡ wal
    → (if c then a else b).2 ≡ wal
same_log true a b wal e f = e
same_log false a b wal e f = f

second_log :
    (c d : Bool) (a b e : Bool × Wal × List Call)
    → c ≡ false
    → d ≡ true
    → (if c then a else if d then b else e).1 ≡ b.1
second_log true d a b e f g = absurd (ground (arith, f))
second_log false true a b e f g = refl
second_log false false a b e f g = absurd (ground (arith, g))

module _ (cfg : Config) (snapshots : List SnapHandle) (mark : Option (ℕ → Bool))
    (kv_of : List ℕ → ℕ) where
  -- The log after an item was committed.
  abbrev committed_log : Wal → List ℕ → WalItem → List WalItem → Wal
  committed_log wal key item others =
      let out = commit_items cfg snapshots mark kv_of (kv_of key) item others in
      drop_items cfg snapshots mark kv_of
        (record (count_item cfg snapshots mark kv_of wal item) {
          key_map = put key out.0 wal.key_map;
        })
        out.1

  key_map-committed_log :
      (wal : Wal) (key : List ℕ) (item : WalItem) (others : List WalItem)
      → (committed_log wal key item others).key_map
        ≡ put key (commit_items cfg snapshots mark kv_of (kv_of key) item others).0 wal.key_map
  key_map-committed_log wal key item others = key_map-drop_items cfg snapshots mark kv_of _ _

  commit_item-Good :
      (wal : Wal) (key : List ℕ) (items : List WalItem) (o : Option (WalItem × List WalItem))
      → IsValid wal
      → Rest o
      → Good (commit_item cfg snapshots mark kv_of wal key items o)
  unfolding commit_item
  commit_item-Good wal key items none valid r = λ e. valid
  commit_item-Good wal key items (some (item, others)) valid (fl, o) =
      choose-Good item.committed (mark_succeeds cfg snapshots mark kv_of item) _ _ _ (λ e. valid)
        (λ e.
          put-IsValid wal (committed_log wal key item others) key
            (commit_items cfg snapshots mark kv_of (kv_of key) item others).0
            (key_map-committed_log wal key item others)
            (commit_items-IsOrdered cfg snapshots mark kv_of (kv_of key) item others o) valid)
        refl

  commit_at-Good :
      (wal : Wal) (id : ℕ) (o : Option (List ℕ))
      → IsValid wal
      → Good (commit_at cfg snapshots mark kv_of wal id o)
  unfolding commit_at IsValid
  commit_at-Good wal id none valid = λ e. valid
  commit_at-Good wal id (some key) valid =
      commit_item-Good wal key (items_of (lookup key wal.key_map))
        (take_item (λ i. i.id == id) (items_of (lookup key wal.key_map))) valid
        (take_item-Rest (λ i. i.id == id) (items_of (lookup key wal.key_map)) (valid key))

  loop_outcome :
      (c : Bool) (a b : Bool × List ℕ × Wal × List Call)
      → b.0 ≡ false
      → (c ≡ true → a.0 ≡ true → IsValid a.2)
      → (if c then a else b).0 ≡ true
      → IsValid (if c then a else b).2
  loop_outcome true a b f h e = h refl e
  loop_outcome false a b f h e = absurd (ground (arith, f, e))

  commit_loop-Good :
      (ids : List ℕ) (wal : Wal)
      → IsValid wal
      → (commit_loop cfg snapshots mark kv_of ids wal).0 ≡ true
      → IsValid (commit_loop cfg snapshots mark kv_of ids wal).2
  unfolding commit_loop
  commit_loop-Good [] wal valid e = valid
  commit_loop-Good (id ∷ ids) wal valid e =
      let one = commit_at cfg snapshots mark kv_of wal id (key_of id wal.key_map) in
      loop_outcome one.0 _ _ refl
        (λ good.
          commit_loop-Good ids one.1 (commit_at-Good wal id (key_of id wal.key_map) valid good))
        e

  commit_loop-one :
      (id : ℕ) (wal : Wal)
      → (commit_loop cfg snapshots mark kv_of (id ∷ []) wal).2
        ≡ (commit_at cfg snapshots mark kv_of wal id (key_of id wal.key_map)).1
  unfolding commit_loop
  commit_loop-one id wal =
      same_log (commit_at cfg snapshots mark kv_of wal id (key_of id wal.key_map)).0 _ _
        (commit_at cfg snapshots mark kv_of wal id (key_of id wal.key_map)).1 refl refl

  commit_item-log :
      (wal : Wal) (key : List ℕ) (items : List WalItem) (item : WalItem) (others : List WalItem)
      → item.committed ≡ false
      → mark_succeeds cfg snapshots mark kv_of item ≡ true
      → (commit_item cfg snapshots mark kv_of wal key items (some (item, others))).1
        ≡ committed_log wal key item others
  unfolding commit_item
  commit_item-log wal key items item others c m =
      second_log item.committed (mark_succeeds cfg snapshots mark kv_of item) _ _ _ c m

  commit_at-taken :
      (wal : Wal) (id : ℕ) (key : List ℕ) (item : WalItem) (others : List WalItem)
      → take_item (λ i. i.id == id) (items_of (lookup key wal.key_map)) ≡ some (item, others)
      → (commit_at cfg snapshots mark kv_of wal id (some key)).1
        ≡ (commit_item cfg snapshots mark kv_of wal key
            (items_of (lookup key wal.key_map))
            (some (item, others))).1
  unfolding commit_at
  commit_at-taken wal id key item others taken =
      ap
        (λ o.
          (commit_item cfg snapshots mark kv_of wal key (items_of (lookup key wal.key_map)) o).1)
        taken

  found_in_log :
      (u : FdbTxn) (wal : Wal) (key : List ℕ) (item : WalItem) (others : List WalItem)
      → IsOrdered others
      → item.flushed_out ≡ false
      → wal_find u (committed_log wal key item others) key
        ≡ some (found (or_else (pending u others) (record item { committed = true })))
  unfolding wal_find
  found_in_log u wal key item others o f =
      ap (λ m. found_of (find_items u (items_of (lookup key m))))
        (key_map-committed_log wal key item others)
      ∙ ap (λ l. found_of (find_items u (items_of l)))
          (lookup-put_same key (commit_items cfg snapshots mark kv_of (kv_of key) item others).0
            wal.key_map)
      ∙ ap found_of (find_items-commit_items cfg snapshots mark kv_of u (kv_of key) item others o f)

-- A `wal_commit` that succeeds keeps the items of every key in order, whatever the transaction and the
-- open snapshots: no uncommitted item stands behind a committed one, and no uncommitted item is marked
-- as flushed.
pub wal_commit-IsValid :
    (cfg : Config) (snapshots : List SnapHandle) (mark : Option (ℕ → Bool)) (kv_of : List ℕ → ℕ)
    (txn : FdbTxn) (wal : Wal)
    → IsValid wal
    → (wal_commit cfg snapshots mark kv_of txn wal).0 ≡ true
    → IsValid (wal_commit cfg snapshots mark kv_of txn wal).2
unfolding wal_commit
wal_commit-IsValid cfg snapshots mark kv_of txn wal valid e =
    commit_loop-Good cfg snapshots mark kv_of txn.items wal valid e

-- After `wal_commit` of a transaction with one item, whose commit mark can be written, every lookup of
-- its key finds that item, unless the transaction that looks sees an uncommitted one among the others:
-- no older committed item shows, whether it has gone or a snapshot still needs it.
pub wal_commit-publishes :
    (cfg : Config) (snapshots : List SnapHandle) (mark : Option (ℕ → Bool)) (kv_of : List ℕ → ℕ)
    (txn u : FdbTxn) (wal : Wal) (id : ℕ) (key : List ℕ) (item : WalItem) (others : List WalItem)
    → IsValid wal
    → txn.items ≡ id ∷ []
    → key_of id wal.key_map ≡ some key
    → take_item (λ i. i.id == id) (items_of (lookup key wal.key_map)) ≡ some (item, others)
    → item.committed ≡ false
    → mark_succeeds cfg snapshots mark kv_of item ≡ true
    → wal_find u (wal_commit cfg snapshots mark kv_of txn wal).2 key
      ≡ some (found (or_else (pending u others) (record item { committed = true })))
unfolding wal_commit IsValid
wal_commit-publishes cfg snapshots mark kv_of txn u wal id key item others valid one at_key taken c
      m =
    let rest : Rest (some (item, others)) =
      subst Rest taken
        (take_item-Rest (λ i. i.id == id) (items_of (lookup key wal.key_map)) (valid key)) in
    ap (λ ids. wal_find u (commit_loop cfg snapshots mark kv_of ids wal).2 key) one
    ∙ ap (λ w. wal_find u w key)
        (commit_loop-one cfg snapshots mark kv_of id wal
          ∙ ap (λ k. (commit_at cfg snapshots mark kv_of wal id k).1) at_key
          ∙ commit_at-taken cfg snapshots mark kv_of wal id key item others taken
          ∙ commit_item-log cfg snapshots mark kv_of wal key (items_of (lookup key wal.key_map))
              item others c m)
    ∙ found_in_log cfg snapshots mark kv_of u wal key item others rest.1 (not_flushed item rest.0 c)
