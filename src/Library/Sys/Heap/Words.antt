-- ===== src/Library/Sys/Heap/Words.antt =====
-- Words of 64 bits in memory, the lowest byte first.
use fern_night.Prelude.{
  ℕ, zero, suc, ◌+◌, ◌*◌, ◌/◌, ◌%◌, ◌^◌, ◌≤◌, ◌<◌, ◌≡◌, ◌⊎◌, inl, refl, ap₂, ◌==◌, if◌then◌else◌,
  arith, pow-suc,
}

-- `left` bytes of a value from `a` on.
unfoldable pub store_bytes : ℕ → (ℕ → ℕ) → ℕ → ℕ → ℕ → ℕ
store_bytes zero memory a value = memory
store_bytes (suc left) memory a value =
    store_bytes left (λ x. if x == a then value % 2 ^ 8 else memory x) (suc a) (value / 2 ^ 8)

unfoldable pub load_bytes : ℕ → (ℕ → ℕ) → ℕ → ℕ
load_bytes zero memory a = 0
load_bytes (suc left) memory a = memory a + load_bytes left memory (suc a) * 2 ^ 8

abbrev pub store64 : (ℕ → ℕ) → ℕ → ℕ → ℕ → ℕ
store64 = store_bytes 8

abbrev pub load64 : (ℕ → ℕ) → ℕ → ℕ
load64 = load_bytes 8

pub store_bytes_outside :
    (left : ℕ) (memory : ℕ → ℕ) (a value x : ℕ)
    → (x < a) ⊎ (a + left ≤ x)
    → store_bytes left memory a value x ≡ memory x
unfolding store_bytes
store_bytes_outside zero memory a value x h = refl
store_bytes_outside (suc left) memory a value x h =
    let ih =
      store_bytes_outside left (λ y. if y == a then value % 2 ^ 8 else memory y) (suc a)
        (value / 2 ^ 8) x (ground arith) in
    rw ih (ground arith)

-- Only the bytes of the word matter.
pub load_bytes_same :
    (left : ℕ) (m m' : ℕ → ℕ) (a : ℕ)
    → ((x : ℕ) → a ≤ x → x < a + left → m x ≡ m' x)
    → load_bytes left m a ≡ load_bytes left m' a
unfolding load_bytes
load_bytes_same zero m m' a h = refl
load_bytes_same (suc left) m m' a h =
    ap₂ (λ (b w : ℕ). b + w * 2 ^ 8) (h a (omega arith) (omega arith))
      (load_bytes_same left m m' (suc a) (λ x l r. h x (omega arith) (omega arith)))

pub load-store_bytes :
    (left : ℕ) (memory : ℕ → ℕ) (a value : ℕ)
    → value < 256 ^ left
    → load_bytes left (store_bytes left memory a value) a ≡ value
unfolding load_bytes store_bytes
load-store_bytes zero memory a value h = omega arith
load-store_bytes (suc left) memory a value h =
    let memory' = λ (x : ℕ). if x == a then value % 2 ^ 8 else memory x in
    let self : memory' a ≡ value % 2 ^ 8 = ground arith in
    let low = store_bytes_outside left memory' (suc a) (value / 2 ^ 8) a (inl (omega arith)) in
    let high =
      load-store_bytes left memory' (suc a) (value / 2 ^ 8) (omega (arith, pow-suc 256 left)) in
    rw (low, high, self) (omega arith)
