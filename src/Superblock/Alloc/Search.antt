-- ===== src/Superblock/Alloc/Search.antt =====
-- The search through the index finds what a scan of the whole bitmap would find.
use forestdb.Superblock.Bitmap.{is_bmp_set, div8, mod8, basic_mask}
use forestdb.Superblock.Bitmap.Masks.{mod8_lem}
use forestdb.Superblock.Index.{search, first}
use forestdb.Superblock.Index.Keys.{
  Ascending, search-first, search-empty, Ascending-remove, search-remove, length-remove-le,
  length-remove,
}
use forestdb.Superblock.Alloc.{
  scan_node, Found, next_block, no_block, out_of_fuel, List, search_nodes, remove,
}
use forestdb.Superblock.Alloc.Blocks.{blocks, blocks_end, blocks_step, blocks_skip}
use forestdb.Common.{
  List, ℕ, Option, ◌+◌, ◌<◌, ◌≡◌, not, ◌*◌, arith, some, bit_and, get_or, suc, ◌∷◌, ◌/◌, ◌==◌,
  Bool-cases, leb, ◌≤◌, inl, none, inr, zero, ◌-◌, ◌∙◌, [], leb→le, true, ap, sym, false, tests,
  if◌then◌else◌, length, Option-cases,
}

module _ (bmp : List ℕ) (size : ℕ) where
  -- What the scan of node `node` from offset `i` on says.
  abbrev Scanned : ℕ → ℕ → Option ℕ → Type 0
  Scanned node i none = blocks bmp size (node * 256 + i) ≡ blocks bmp size (node * 256 + 256)
  Scanned node i (some x) =
      (blocks bmp size (node * 256 + i) ≡ x ∷ blocks bmp size (x + 1))
      × (x / 256 ≡ node)
      × (x < size)
      × (is_bmp_set bmp x ≡ true)

  -- The bit that the loop tests is that of block `node * 256 + i`.
  scan_test :
      (node i : ℕ)
      → i < 256
      → not (bit_and (get_or bmp (div8 i + node * 32) 0) (basic_mask (mod8 i)) == 0)
        ≡ is_bmp_set bmp (node * 256 + i)
  unfolding is_bmp_set
  scan_test node i h =
      let byte : div8 i + node * 32 ≡ div8 (node * 256 + i) = omega arith in
      let off : mod8 i ≡ mod8 (node * 256 + i) =
        omega (arith, mod8_lem i, mod8_lem (node * 256 + i)) in
      rw (byte, off)

  scan_place : (node i : ℕ) → (div8 i + node * 32) * 8 + mod8 i ≡ node * 256 + i
  scan_place node i = omega (arith, mod8_lem i)

  Scanned-step :
      (node i : ℕ) (o : Option ℕ)
      → blocks bmp size (node * 256 + i) ≡ blocks bmp size (node * 256 + i + 1)
      → Scanned node (i + 1) o
      → Scanned node i o
  Scanned-step node i none e h = e ∙ ap (blocks bmp size) (omega arith) ∙ h
  Scanned-step node i (some x) e (rest, same, low, bit) =
      (e ∙ ap (blocks bmp size) (omega arith) ∙ rest, same, low, bit)

  scan_node-Scanned :
      (left node i : ℕ) → i + left ≡ 256 → Scanned node i (scan_node left bmp size node i)
  unfolding scan_node
  scan_node-Scanned zero node i e = let last : i ≡ 256 = omega arith in rw last
  scan_node-Scanned (suc left) node i e =
      let at = node * 256 + i in
      rw (scan_place node i, scan_test node i (omega arith))
        (elim (Bool-cases (leb size at)) [
          | inl out ↦ rw out (
              blocks_end bmp size at (leb→le size at out)
              ∙ sym (blocks_end bmp size (node * 256 + 256) (omega tests)))
          | inr more ↦
              let low : at < size = ground arith in
              elim (Bool-cases (is_bmp_set bmp at)) [
                | inl here ↦
                    rw (more, here) (blocks_step bmp size at low ∙ rw here, omega arith, low, here)
                | inr clear ↦
                    rw (more, clear)
                      (Scanned-step node i (scan_node left bmp size node (i + 1))
                        (blocks_step bmp size at low ∙ rw clear)
                        (scan_node-Scanned left node (i + 1) (omega arith)))
              ]
        ])

  -- The index knows the node of every set block from `from` on.
  abbrev pub Covers : ℕ → List ℕ → Type 0
  Covers from idx =
      (c : ℕ) → from ≤ c → c < size → is_bmp_set bmp c ≡ true → search (c / 256) idx ≡ true

  -- What the search from block `from` on says; the index that is left serves the blocks behind.
  abbrev pub Searched : ℕ → Found → Type 0
  Searched from (next_block x idx) =
      (blocks bmp size from ≡ x ∷ blocks bmp size (x + 1))
      × (x < size)
      × (is_bmp_set bmp x ≡ true)
      × Ascending idx
      × ((j : ℕ) → search j idx ≡ true → x / 256 ≤ j)
      × Covers ((x / 256 + 1) * 256) idx
  Searched from (no_block idx) = blocks bmp size from ≡ []
  Searched from out_of_fuel = ⊥

  -- After node `node` the next one to hold a set block is the first of the index.
  gap_to_next :
      (node : ℕ) (idx : List ℕ)
      → Ascending idx
      → Covers ((node + 1) * 256) idx
      → (id : ℕ) → first idx ≡ some id
      → node < id
      → blocks bmp size (node * 256 + 256) ≡ blocks bmp size (id * 256 + 0)
  gap_to_next node idx a covers id e h =
      blocks_skip bmp size (id * 256 - (node * 256 + 256)) (node * 256 + 256) clear
      ∙ ap (blocks bmp size) (omega arith)
    where
      clear :
          (c : ℕ)
          → node * 256 + 256 ≤ c
          → c < node * 256 + 256 + (id * 256 - (node * 256 + 256))
          → c < size
          → is_bmp_set bmp c ≡ false
      clear c p q r = elim (Bool-cases (is_bmp_set bmp c)) [
        | inr zero_bit ↦ zero_bit
        | inl one_bit ↦ absurd (
            omega (arith, (search-first (c / 256) id idx a e).1 (covers c (omega arith) r one_bit)))
      ]

  gap_to_end :
      (node : ℕ) (idx : List ℕ)
      → Covers ((node + 1) * 256) idx
      → first idx ≡ none
      → blocks bmp size (node * 256 + 256) ≡ []
  gap_to_end node idx covers e =
      blocks_skip bmp size size (node * 256 + 256) clear
      ∙ blocks_end bmp size (node * 256 + 256 + size) (omega arith)
    where
      clear :
          (c : ℕ)
          → node * 256 + 256 ≤ c
          → c < node * 256 + 256 + size
          → c < size
          → is_bmp_set bmp c ≡ false
      clear c p q r = elim (Bool-cases (is_bmp_set bmp c)) [
        | inr zero_bit ↦ zero_bit
        | inl one_bit ↦ cc (covers c (omega arith) r one_bit, search-empty (c / 256) idx e)
      ]

  Searched-back :
      (lo hi : ℕ) (o : Found)
      → blocks bmp size lo ≡ blocks bmp size hi
      → Searched hi o
      → Searched lo o
  Searched-back lo hi (next_block x idx) e (rest, low, bit, a, least, covers) =
      (e ∙ rest, low, bit, a, least, covers)
  Searched-back lo hi (no_block idx) e done = e ∙ done
  Searched-back lo hi out_of_fuel e never = never

-- The index without the node that was scanned.
abbrev pub drop_node : ℕ → List ℕ → List ℕ
drop_node node idx = if search node idx then remove node idx else idx

search-drop_node :
    (j node : ℕ) (idx : List ℕ)
    → Ascending idx
    → search j (drop_node node idx) ≡ (if j == node then false else search j idx)
search-drop_node j node idx a = ground (arith, search-remove j node idx a)

Ascending-drop_node : (node : ℕ) (idx : List ℕ) → Ascending idx → Ascending (drop_node node idx)
Ascending-drop_node node idx a = elim (Bool-cases (search node idx)) [
  | inl there ↦ rw there (Ascending-remove node idx a)
  | inr gone ↦ rw gone a
]

pub length-drop_node : (node : ℕ) (idx : List ℕ) → length (drop_node node idx) ≤ length idx
length-drop_node node idx = ground (arith, length-remove-le node idx)

module _ (bmp : List ℕ) (size : ℕ) where
  -- The search ends within its fuel, and agrees with the list of the set blocks.
  pub search_nodes-Searched :
      (fuel : ℕ) (idx : List ℕ) (node off : ℕ)
      → off ≤ 256
      → length (drop_node node idx) < fuel
      → Ascending idx
      → ((j : ℕ) → search j idx ≡ true → node ≤ j)
      → Covers bmp size ((node + 1) * 256) idx
      → Searched bmp size (node * 256 + off) (search_nodes fuel bmp size idx node off)
  unfolding search_nodes
  search_nodes-Searched zero idx node off h enough a low covers = absurd (omega arith)
  search_nodes-Searched (suc fuel) idx node off h enough a low covers =
      let scanned = scan_node-Scanned bmp size (256 - off) node off (omega arith) in
      elim (Option-cases (scan_node (256 - off) bmp size node off)) [
        | inr (x, e) ↦
            let found : Scanned bmp size node off (some x) = rw e at scanned in
            rw (e, search_nodes) (found.0, found.2, found.3, a, rw found.1 low, rw found.1 covers)
        | inl e ↦
            let passed : Scanned bmp size node off none = rw e at scanned in
            let rest = drop_node node idx in
            let rest_a = Ascending-drop_node node idx a in
            let rest_covers : Covers bmp size ((node + 1) * 256) rest =
              λ c p q r. ground (arith, search-drop_node (c / 256) node idx a, covers c p q r) in
            elim (Option-cases (first rest)) [
              | inl last ↦
                  rw (e, last, search_nodes)
                    (passed ∙ gap_to_end bmp size node rest rest_covers last)
              | inr (id, next) ↦
                  let there : search id rest ≡ true = (search-first id id rest rest_a next).0 in
                  let above : node < id = ground (arith, search-drop_node id node idx a, low id) in
                  let shorter : length (drop_node id rest) < fuel =
                    ground (arith, length-remove id rest there) in
                  rw (e, next, search_nodes)
                    (Searched-back bmp size (node * 256 + off) (id * 256 + 0) _
                      (passed ∙ gap_to_next bmp size node rest rest_a rest_covers id next above)
                      (search_nodes-Searched fuel rest id 0 (omega arith) shorter rest_a
                        (λ j s. (search-first j id rest rest_a next).1 s)
                        (λ c p q r. rest_covers c (omega arith) q r)))
            ]
      ]
