-- ===== src/Library/Sys/Heap/Contents.antt =====
-- What malloc, realloc and free do to the areas of a process.
use native.Mathlib.Decide.{ℕ_discrete}
use fern_night.Prelude.{
  ℕ, zero, suc, ◌+◌, ◌-◌, ◌*◌, ◌/◌, ◌%◌, ◌^◌, ◌≤◌, ◌<◌, ◌≡◌, ◌⊎◌, inl, inr, refl, ap, ◌∙◌, Option,
  none, some, ltb, ◌==◌, if◌then◌else◌, arith, Bool-cases,
}
use fern_night.Prelude.Machine.{sub64, shl64, page_align_up, page_align_down}
use fern_night.Prelude.Machine.Align.{page_align_down_lem, page_align_up_lem}
use fern_night.Library.Sys.{memcpy, copy_memory}
use fern_night.Library.Sys.Heap.{malloc, free, realloc, with_header, Released}
use fern_night.Library.Sys.Heap.Words.{
  load64, store_bytes_outside, load_bytes_same, load-store_bytes,
}

-- The pages of an area with room for `byte` bytes.
abbrev pub pages : ℕ → ℕ
pages byte = (byte + 16 + 4095) / 4096

-- An area of `n` pages at `a` that malloc has headed; `a` is the address of a page.
pub record IsArea (memory : ℕ → ℕ) (a n : ℕ) : Type 0 where
  pub aligned : a % 4096 ≡ 0
  pub some_page : 0 < n
  pub bound : a + n * 4096 < 2 ^ 63
  pub head : load64 memory a ≡ n

-- What is given back of `n` pages at `a`.
abbrev pub released : ℕ → ℕ → Released
released a n = record { address = a; bytes = n * 4096 }

pages-align :
    (byte : ℕ) → byte + 16 + 4096 < 2 ^ 64 → page_align_up (with_header byte) / 4096 ≡ pages byte
pages-align byte h =
    let e : with_header byte ≡ byte + 16 = omega arith in
    rw e (omega (arith, page_align_up_lem (byte + 16) (omega arith)))

-- malloc heads an area that has room for the bytes, and writes its head only.
pub malloc-IsArea :
    (memory : ℕ → ℕ) (a byte : ℕ)
    → a % 4096 ≡ 0
    → a + pages byte * 4096 < 2 ^ 63
    → let (p, memory') = malloc memory a byte in
      (p ≡ a + 16)
      × (p + byte ≤ a + pages byte * 4096)
      × IsArea memory' a (pages byte)
      × ((x : ℕ) → (x < a) ⊎ (a + 8 ≤ x) → memory' x ≡ memory x)
unfolding malloc
malloc-IsArea memory a byte h b = rw (pages-align byte (omega arith)) (
  omega arith,
  omega arith,
  record {
    aligned = h;
    some_page = omega arith;
    bound = b;
    head = load-store_bytes 8 memory a (pages byte) (omega arith);
  },
  store_bytes_outside 8 memory a (pages byte),
)

-- free gives back exactly the pages of an area.
pub free-IsArea :
    (memory : ℕ → ℕ) (a n : ℕ) → IsArea memory a n → free memory (a + 16) ≡ released a n
unfolding free
free-IsArea memory a n v =
    let e : sub64 (a + 16) 16 ≡ a = omega (arith, v.bound) in
    let bytes : shl64 n 12 ≡ n * 4096 = omega (arith, v.bound) in rw (e, v.head, bytes) refl

copy-outside :
    (memory : ℕ → ℕ) (dst src left i x : ℕ)
    → (x < dst + i) ⊎ (dst + i + left ≤ x)
    → copy_memory memory dst src left i x ≡ memory x
unfolding copy_memory
copy-outside memory dst src zero i x h = refl
copy-outside memory dst src (suc left) i x h =
    let ih =
      copy-outside (λ y. if y == dst + i then memory (src + i) else memory y) dst src left (i + 1) x
        (ground arith) in
    rw ih (ground arith)

-- Areas that do not meet
copy-inside :
    (memory : ℕ → ℕ) (dst src left i j : ℕ)
    → (dst + i + left ≤ src + i) ⊎ (src + i + left ≤ dst + i)
    → i ≤ j
    → j < i + left
    → copy_memory memory dst src left i (dst + j) ≡ memory (src + j)
unfolding copy_memory
copy-inside memory dst src zero i j h l r = absurd (omega arith)
copy-inside memory dst src (suc left) i j h l r =
    let memory' = λ (y : ℕ). if y == dst + i then memory (src + i) else memory y in
    elim (ℕ_discrete j i) [
      | yes e ↦
          let out = copy-outside memory' dst src left (i + 1) (dst + j) (inl (omega (arith, e))) in
          rw out (ground arith)
      | no ne ↦
          let ih =
            copy-inside memory' dst src left (i + 1) j (ground arith) (omega arith) (omega arith) in
          rw ih (ground arith)
    ]

-- The area at `c` of `k` pages, its pointer and its contents after realloc.
pub record IsMoved (memory memory' : ℕ → ℕ) (a n byte p c k : ℕ) : Type 0 where
  pub area : IsArea memory' c k
  pub pointer : p ≡ c + 16
  pub room : p + byte ≤ c + k * 4096
  pub contents : (j : ℕ) → j < n * 4096 - 16 → memory' (p + j) ≡ memory (a + 16 + j)

-- The new area of realloc, and what free is told.
moved :
    (memory : ℕ → ℕ) (a n b byte : ℕ)
    → IsArea memory a n
    → b % 4096 ≡ 0
    → b + pages (byte + 16) * 4096 < 2 ^ 63
    → (b + pages (byte + 16) * 4096 ≤ a) ⊎ (a + n * 4096 ≤ b)
    → n * 4096 < byte + 32
    → let (p, m) = malloc memory b (byte + 16) in
      let copied = memcpy m p (a + 16) (n * 4096 - 16) in
      IsMoved memory copied a n byte p b (pages (byte + 16))
      × (◌≡◌ {A = Option Released} (some (free copied (a + 16))) (some (released a n)))
unfolding memcpy
moved memory a n b byte v h l d w =
    let (e, room, area, frame) = malloc-IsArea memory b (byte + 16) h l in
    let m = (malloc memory b (byte + 16)).1 in
    let size = n * 4096 - 16 in
    let copied = copy_memory m (b + 16) (a + 16) size 0 in
    let out : (x : ℕ) → (x < b + 16) ⊎ (b + 16 + size ≤ x) → copied x ≡ m x =
      λ x k. copy-outside m (b + 16) (a + 16) size 0 x (ground arith) in
    let same : (x : ℕ) → a ≤ x → x < a + n * 4096 → m x ≡ memory x =
      λ x lo hi. frame x (ground (arith, v.some_page)) in
    let new : IsArea copied b (pages (byte + 16)) = record {
      aligned = h;
      some_page = area.some_page;
      bound = area.bound;
      head = load_bytes_same 8 copied m b (λ x lo hi. out x (inl (omega arith))) ∙ area.head;
    } in
    let old : IsArea copied a n = record {
      aligned = v.aligned;
      some_page = v.some_page;
      bound = v.bound;
      head =
          load_bytes_same 8 copied memory a (λ x lo hi.
            out x (ground (arith, v.some_page)) ∙ same x lo (omega (arith, v.some_page)))
          ∙ v.head;
    } in
    rw e (
      record {
        area = new;
        pointer = refl;
        room = omega (arith, room, e);
        contents = λ j r.
            copy-inside m (b + 16) (a + 16) size 0 j (ground (arith, v.some_page)) (omega arith)
              (omega arith)
            ∙ same (a + 16 + j) (omega arith) (omega (arith, v.some_page));
      },
      ap some (free-IsArea copied a n old),
    )

-- Let `n` pages at `a` be an area of malloc, and let the system call put the new area, if it is asked
-- for one, at the address `b` of a page, below 2 ^ 63 and clear of the old area. Then realloc of the
-- pointer of the old area gives the pointer of an area with room for the bytes, which has the bytes
-- of the whole old area; either it is the old area and nothing is given back, or it is the new one and
-- exactly the pages of the old one are given back.
pub realloc-IsMoved :
    (memory : ℕ → ℕ) (a n b byte : ℕ)
    → IsArea memory a n
    → b % 4096 ≡ 0
    → b + pages (byte + 16) * 4096 < 2 ^ 63
    → (b + pages (byte + 16) * 4096 ≤ a) ⊎ (a + n * 4096 ≤ b)
    → let (p, memory', back) = realloc memory b (a + 16) byte in
      (IsMoved memory memory' a n byte p a n × (back ≡ none))
      ⊎ (IsMoved memory memory' a n byte p b (pages (byte + 16)) × (back ≡ some (released a n)))
unfolding realloc
realloc-IsMoved memory a n b byte v h l d =
    let e : page_align_down (a + 16) ≡ a =
      omega (arith, page_align_down_lem (a + 16) (omega (arith, v.bound)), v.aligned, v.bound) in
    let f : sub64 (shl64 n 12) 16 ≡ n * 4096 - 16 = omega (arith, v.bound, v.some_page) in
    let g : with_header byte ≡ byte + 16 = omega arith in
    elim (Bool-cases (ltb (sub64 (n * 4096 - 16) 16) byte)) [
      | inl t ↦ rw (e, v.head, f, g, t) (inr (moved memory a n b byte v h l d (ground arith)))
      | inr t ↦
          rw (e, v.head, f, t)
            (inl (
              record {
                area = v;
                pointer = refl;
                room = ground (arith, v.some_page);
                contents = λ j r. refl;
              },
              refl,
            ))
    ]
