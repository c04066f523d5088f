-- ===== src/Docio/Append/Counts.antt =====
-- The number of blocks that `docio_append_doc_raw` allocates is what the document needs.
use forestdb.Common.{
  [], ◌∷◌, ℕ, List, ◌<◌, length, ◌≡◌, ◌/◌, ◌≤◌, suc, ◌*◌, ◌+◌, arith, subst, if◌then◌else◌, ◌-◌,
  ltb, ◌==◌, ◌%◌, zero, sym, Bool-cases, inl, inr, ltb→lt, Bool, not, ◌&&◌, true, false, ◌^◌, leb,
  sub64,
}
use forestdb.Docio.Append.Loop.{Fits}
use native.Mathlib.Nat.{div-add-mod', mod-lt, mod-le, div-le_self}
use forestdb.Common.{ap₂, ◌∙◌}

Fits-count :
    (space remaining n : ℕ) (blocks : List (ℕ × ℕ))
    → length blocks ≡ suc n
    → n * space ≤ remaining
    → remaining ≤ suc n * space
    → Fits space remaining blocks
unfolding Fits
Fits-count space remaining n [] e h k = absurd (omega arith)
Fits-count space remaining n (b ∷ []) e h k =
    (let z : n ≡ 0 = omega arith in
      (let last : remaining ≤ 1 * space = subst (λ t. remaining ≤ suc t * space) z k in
        omega arith))
Fits-count space remaining zero (b ∷ c ∷ cs) e h k = absurd (omega arith)
Fits-count space remaining (suc n) (b ∷ c ∷ cs) e h k = (
  omega arith,
  Fits-count space (remaining - space) n (c ∷ cs) (omega arith) (omega arith) (omega arith),
)

Fits-front :
    (space q r o size : ℕ) (blocks : List (ℕ × ℕ))
    → size ≡ q * space + r
    → r < space
    → o ≤ space
    → o < size
    → length blocks ≡ q + (if ltb o r then 1 else 0)
    → Fits space (size - o) blocks
Fits-front space zero r o size blocks e h k l n =
    Fits-count space (size - o) 0 blocks (ground (arith, n, e, l)) (omega arith) (omega arith)
Fits-front space (suc q) r o size blocks e h k l n = elim (Bool-cases (ltb o r)) [
  | inl t ↦
      Fits-count space (size - o) (suc q) blocks (ground (arith, n, t))
        (omega (arith, ltb→lt o r t)) (omega arith)
  | inr f ↦
      Fits-count space (size - o) q blocks (ground (arith, n, f)) (omega arith)
        (let less : r ≤ o = ground (arith, f) in omega arith)
]

Fits-all :
    (space q r size : ℕ) (blocks : List (ℕ × ℕ))
    → size ≡ q * space + r
    → r < space
    → 0 < size
    → length blocks ≡ q + (if r == 0 then 0 else 1)
    → Fits space size blocks
Fits-all space zero r size blocks e h l n =
    Fits-count space size 0 blocks (ground (arith, n, e, l)) (omega arith) (omega arith)
Fits-all space (suc q) r size blocks e h l n = elim (Bool-cases (r == 0)) [
  | inl t ↦
      Fits-count space size q blocks (ground (arith, n, t)) (omega arith)
        (let z : r ≡ 0 = ground (arith, t) in omega arith)
  | inr f ↦ Fits-count space size (suc q) blocks (ground (arith, n, f)) (omega arith) (omega arith)
]

-- The blocks behind the front part, of `o` bytes.
pub Fits-behind :
    (space o size : ℕ) (blocks : List (ℕ × ℕ))
    → 0 < space
    → o ≤ space
    → o < size
    → (q r : ℕ) → q ≡ size / space
    → r ≡ size % space
    → length blocks ≡ q + (if ltb o r then 1 else 0)
    → Fits space (size - o) blocks
Fits-behind space o size blocks p k l q r u v n =
    Fits-front space q r o size blocks
      (sym (div-add-mod' size space) ∙ sym (ap₂ (λ a b. a * space + b) u v))
      (subst (λ t. t < space) (sym v) (mod-lt size {m = space} p)) k l n

pub Fits-whole :
    (space size : ℕ) (blocks : List (ℕ × ℕ))
    → 0 < space
    → 0 < size
    → (q r : ℕ) → q ≡ size / space
    → r ≡ size % space
    → length blocks ≡ q + (if r == 0 then 0 else 1)
    → Fits space size blocks
Fits-whole space size blocks p l q r u v n =
    Fits-all space q r size blocks
      (sym (div-add-mod' size space) ∙ sym (ap₂ (λ a b. a * space + b) u v))
      (subst (λ t. t < space) (sym v) (mod-lt size {m = space} p)) l n

-- Within 32 bits nothing is cut off.
pub div_fits : (size space : ℕ) → size < 2 ^ 32 → size / space % 2 ^ 32 ≡ size / space
div_fits size space h = let less = div-le_self size space in omega (arith, less, h)

pub mod_fits : (size space : ℕ) → size < 2 ^ 32 → size % space % 2 ^ 32 ≡ size % space
mod_fits size space h = let less = mod-le size space in omega (arith, less, h)

pub Fits-nonempty :
    (space remaining : ℕ) (blocks : List (ℕ × ℕ))
    → Fits space remaining blocks
    → 0 < remaining
    → 0 < length blocks
unfolding Fits
Fits-nonempty space remaining [] f h = absurd (omega arith)
Fits-nonempty space remaining (b ∷ bs) f h = omega arith

-- The count in the two cases of where the document begins.
pub count_front :
    (q : ℕ) (full fresh more rest : Bool)
    → not full && not fresh ≡ true
    → q + (if more then 1 else 0) + (if fresh && (rest && not more) then 1 else 0)
      ≡ q + (if more then 1 else 0)
count_front q full fresh more rest h = ground (arith, h)

pub count_whole :
    (q o r : ℕ) (fresh : Bool)
    → not (o == 0) && not fresh ≡ false
    → q + (if ltb o r then 1 else 0) + (if fresh && (not (r == 0) && not (ltb o r)) then 1 else 0)
      ≡ q + (if r == 0 then 0 else 1)
count_whole q o r fresh h = ground (arith, h)

pub some_front :
    (o space pos : ℕ) (fresh : Bool)
    → o ≡ space - pos
    → not (o == 0) && not fresh ≡ true
    → pos < space
some_front o space pos fresh e h = ground (arith, e, h)

pub here_fits :
    (space pos size : ℕ)
    → space < 2 ^ 64
    → pos ≤ space
    → leb size (sub64 space pos) ≡ true
    → pos + size ≤ space
here_fits space pos size w h k =
    let gap : sub64 space pos ≡ space - pos = omega arith in ground (arith, gap, k)

pub here_full :
    (space pos size : ℕ)
    → space < 2 ^ 64
    → pos ≤ space
    → leb size (sub64 space pos) ≡ false
    → space - pos < size
here_full space pos size w h k =
    let gap : sub64 space pos ≡ space - pos = omega arith in ground (arith, gap, k)
