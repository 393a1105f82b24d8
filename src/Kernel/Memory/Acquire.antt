-- ===== src/Kernel/Memory/Acquire.antt =====
-- kernel_memory_acquire: a first fit, reserved in whole; kernel_memory_dispose gives it back.
use fern_night.Prelude.{
  ℕ, zero, suc, ◌+◌, ◌^◌, ◌≤◌, ◌<◌, true, false, Option, none, some, if◌then◌else◌, ◌≡◌, refl, ap,
  sym, ◌≢◌, ◌⊎◌, inl, inr, arith, Bool-cases, Option-cases,
}
use native.Mathlib.Decide.{dec_lt}
use fern_night.Kernel.Memory.{
  Map, available, check, rounds, search, reserve, dispose, kernel_memory_acquire,
  kernel_memory_dispose,
}
use fern_night.Kernel.Memory.Map.{in_run, available-reserve, available-dispose}

-- The `n` pages from `p` on are available.
abbrev pub IsFree : Map → ℕ → ℕ → Type 0
IsFree m p n = (c : ℕ) → p ≤ c → c < p + n → available m c ≡ true

-- What the inner loop says of the `n` pages from `p` on.
abbrev Checked : Map → ℕ → ℕ → Option ℕ → Type 0
Checked m n p none = IsFree m p n
Checked m n p (some c) = (p ≤ c) × (c < p + n) × (available m c ≡ false)

check-Checked : (m : Map) (n p : ℕ) → Checked m n p (check m n p)
unfolding check
check-Checked m zero p = λ c h l. absurd (omega arith)
check-Checked m (suc n) p = elim (Bool-cases (available m p)) [
  | inr e ↦ rw e (omega arith, omega arith, e)
  | inl e ↦ rw e (extend (check m n (p + 1)) (check-Checked m n (p + 1)) e)
]
  where
    extend : (o : Option ℕ) → Checked m n (p + 1) o → available m p ≡ true → Checked m (suc n) p o
    extend none h e = λ c hc lc. ground (arith, h c)
    extend (some c) h e = (omega arith, omega arith, h.2)

-- The first page below `limit` from which `n` pages are available, if there is one.
abbrev pub FirstFit : Map → ℕ → ℕ → Option ℕ → Type 0
FirstFit m limit n none = (q : ℕ) → q < limit → ¬ (IsFree m q n)
FirstFit m limit n (some p) = (p < limit) × IsFree m p n × ((q : ℕ) → q < p → ¬ (IsFree m q n))

pub rounds-eq : (p n : ℕ) → p + n < 2 ^ 64 → rounds p n ≡ n
rounds-eq p n h = omega arith

-- A run that starts above the last broken page `c` may fit; one that holds `c` does not.
skip_broken :
    (m : Map) (n p c : ℕ)
    → ((q : ℕ) → q < p → ¬ (IsFree m q n))
    → Checked m n p (some c)
    → (q : ℕ) → q < c + 1
    → ¬ (IsFree m q n)
skip_broken m n p c before broken q h free = elim (dec_lt q p) [
  | yes l ↦ before q l free
  | no l ↦ ground (arith, free c)
]

-- One round of the search, by its three ways to end.
module _ (fuel : ℕ) (m : Map) (limit n p : ℕ) (small : limit + n ≤ 2 ^ 64) where
  search_end : limit ≤ p → search (suc fuel) m limit n p ≡ none
  unfolding search
  search_end h = ground arith

  search_hit : p < limit → check m n p ≡ none → search (suc fuel) m limit n p ≡ some p
  unfolding search
  search_hit l e =
      ground (arith, rounds-eq p n, ap (λ k. check m k p) (rounds-eq p n (omega arith)))

  search_miss :
      (c : ℕ)
      → p < limit
      → check m n p ≡ some c
      → search (suc fuel) m limit n p ≡ search fuel m limit n (c + 1)
  unfolding search
  search_miss c l e =
      ground (arith, rounds-eq p n, ap (λ k. check m k p) (rounds-eq p n (omega arith)))

search-FirstFit :
    (fuel : ℕ) (m : Map) (limit n p : ℕ)
    → limit ≤ p + fuel
    → limit + n ≤ 2 ^ 64
    → ((q : ℕ) → q < p → ¬ (IsFree m q n))
    → FirstFit m limit n (search fuel m limit n p)
search-FirstFit zero m limit n p enough small before =
    unfold search in λ q h. before q (omega arith)
search-FirstFit (suc fuel) m limit n p enough small before = elim (dec_lt p limit) [
  | no l ↦ rw (search_end fuel m limit n p small (omega arith)) (λ q h. before q (omega arith))
  | yes l ↦ elim (Option-cases (check m n p)) [
    | inl whole ↦
        rw (search_hit fuel m limit n p small l whole)
          (l, rw whole at (check-Checked m n p), before)
    | inr (c, e) ↦
        let broken : Checked m n p (some c) = rw e at (check-Checked m n p) in
        rw (search_miss fuel m limit n p small c l e) (
          search-FirstFit fuel m limit n (c + 1) (omega arith) small
            (skip_broken m n p c before broken))
  ]
]

-- The search of the whole map, as the function runs it.
pub search_lem :
    (m : Map) (limit n : ℕ) → limit + n ≤ 2 ^ 64 → FirstFit m limit n (search limit m limit n 0)
search_lem m limit n small =
    search-FirstFit limit m limit n 0 (omega arith) small (λ q h. absurd (omega arith))

-- What `kernel_memory_acquire` promises of its answer: a run was found, or there is none.
abbrev pub Acquired : Map → ℕ → ℕ → ℕ × Map → Type 0
Acquired m limit n (page, m') =
    ((page < limit)
      × IsFree m page n
      × ((q : ℕ) → q < page → ¬ (IsFree m q n))
      × ((c : ℕ) → available m' c ≡ (if in_run page n c then false else available m c)))
    ⊎ ((page ≡ 0) × (m' ≡ m) × ((q : ℕ) → q < limit → ¬ (IsFree m q n)))

acquire_miss :
    (m : Map) (limit n : ℕ)
    → search limit m limit n 0 ≡ none
    → kernel_memory_acquire m limit n ≡ (0, m)
unfolding kernel_memory_acquire
acquire_miss m limit n e = ground arith

acquire_hit :
    (m : Map) (limit n p : ℕ)
    → p + n < 2 ^ 64
    → search limit m limit n 0 ≡ some p
    → kernel_memory_acquire m limit n ≡ (p, reserve m n p)
unfolding kernel_memory_acquire
acquire_hit m limit n p small e = ground (arith, ap (λ k. reserve m k p) (rounds-eq p n small))

-- With page numbers that do not wrap, `kernel_memory_acquire` either returns the first page below
-- the limit from which `n` pages are available, and makes exactly those unavailable; or it
-- returns EMPTY, leaves the map as it was, and no such page exists.
pub acquire_first_fit :
    (m : Map) (limit n : ℕ)
    → limit + n ≤ 2 ^ 64
    → Acquired m limit n (kernel_memory_acquire m limit n)
acquire_first_fit m limit n small = elim (Option-cases (search limit m limit n 0)) [
  | inl e ↦ rw (acquire_miss m limit n e) (inr (refl, refl, rw e at (search_lem m limit n small)))
  | inr (p, e) ↦
      let fit : FirstFit m limit n (some p) = rw e at (search_lem m limit n small) in
      rw (acquire_hit m limit n p (omega arith) e)
        (inl (fit.0, fit.1, fit.2, available-reserve m n p))
]

-- Where a run exists and page numbers do not wrap, giving the acquired one back by
-- `kernel_memory_dispose` restores every page.
pub dispose-acquire :
    (m : Map) (limit n q c : ℕ)
    → limit + n ≤ 2 ^ 64
    → q < limit
    → IsFree m q n
    → let (page, m') = kernel_memory_acquire m limit n in
      available (kernel_memory_dispose m' page n) c ≡ available m c
unfolding kernel_memory_dispose
dispose-acquire m limit n q c small l free = elim (acquire_first_fit m limit n small) [
  | inr (_, _, no_run) ↦ absurd (no_run q l free)
  | inl (below, whole, _, after) ↦
      let (page, m') = kernel_memory_acquire m limit n in
      rw (rounds-eq page n (omega arith))
        (ground (arith, available-dispose m' n page c, after c, whole c))
]

-- Two runs of at least one page, with page numbers that do not wrap, acquired one after the other,
-- both with success, have no page in common.
pub acquire-acquire-disjoint :
    (m : Map) (limit n k : ℕ)
    → limit + n ≤ 2 ^ 64
    → limit + k ≤ 2 ^ 64
    → 0 < n
    → 0 < k
    → (kernel_memory_acquire m limit n).0 ≢ 0
    → (kernel_memory_acquire (kernel_memory_acquire m limit n).1 limit k).0 ≢ 0
    → let (p, m') = kernel_memory_acquire m limit n in
      let (q, _) = kernel_memory_acquire m' limit k in (p + n ≤ q) ⊎ (q + k ≤ p)
acquire-acquire-disjoint m limit n k small_n small_k pos_n pos_k p_found q_found =
    let (p, m') = kernel_memory_acquire m limit n in
    let (q, _) = kernel_memory_acquire m' limit k in
    elim (acquire_first_fit m limit n small_n) [
      | inr (lost, _, _) ↦ absurd (p_found lost)
      | inl (_, _, _, after) ↦ elim (acquire_first_fit m' limit k small_k) [
        | inr (lost, _, _) ↦ absurd (q_found lost)
        | inl (_, whole, _, _) ↦ ground (arith, after q, after p, whole q, whole p)
      ]
    ]

-- `dispose` a page at a time.
pub dispose-next :
    (m : Map) (left p : ℕ)
    → p + 1 < 2 ^ 64
    → dispose m (suc left) p ≡ dispose (kernel_memory_dispose m p 1) left (p + 1)
unfolding dispose kernel_memory_dispose
dispose-next m left p h =
    ap (λ (n : ℕ). dispose (dispose m n p) left (p + 1)) (sym (rounds-eq p 1 h))

pub dispose-zero : (m : Map) (p : ℕ) → dispose m 0 p ≡ m
unfolding dispose
dispose-zero m p = refl
