-- ===== src/Kernel/Memory/Valid.antt =====
-- The invariant of page management through kernel_memory_alloc and kernel_memory_release.
use fern_night.Prelude.{
  ℕ, ◌+◌, ◌^◌, ◌≤◌, ◌<◌, true, false, none, some, some_pair, if◌then◌else◌, ◌≡◌, refl, sym, ap,
  subst, ◌∙◌, ◌≢◌, inl, inr, arith, Bool-cases,
}
use mathlib.Core.Option.{some-injective}
use fern_night.Prelude.Machine.{add64}
use fern_night.Kernel.Memory.{
  Kernel, available, kernel_memory_dispose, kernel_memory_alloc, kernel_memory_release,
}
use fern_night.Kernel.Memory.Map.{in_run, available-dispose}
use fern_night.Kernel.Memory.Acquire.{rounds-eq}
use fern_night.Kernel.Memory.Count.{count, count-le, count_remove}
use fern_night.Kernel.Memory.Alloc.{IsValid, Allocated, page_address, page_of_address, alloc_lem}

Allocated-IsValid : {k k' : Kernel} {n page : ℕ} → IsValid k → Allocated k n page k' → IsValid k'
Allocated-IsValid {k} {k'} {n} {page} v a = record {
  small = omega (arith, v.small, a.limit);
  inside = λ c h. ground (arith, a.after c, v.inside c, a.limit);
  zero_page = ground (arith, a.after 0, v.zero_page, a.positive);
  counted = omega (
    arith,
    a.counter,
    a.limit,
    v.counted,
    v.small,
    ap (λ (t : ℕ). count k'.memory_map t 0) a.limit,
    count-le k.memory_map k.page_limit 0,
    count_remove k.memory_map k'.memory_map k.page_limit 0 page n (omega arith)
        (omega (arith, a.below)) a.free (λ c h. a.after c),
  );
}

-- While another processor holds the semaphore there is no answer.
pub alloc_blocked :
    (k : Kernel) (n : ℕ) → k.memory_page_semaphore ≡ true → kernel_memory_alloc k n ≡ none
unfolding kernel_memory_alloc
alloc_blocked k n e = ground arith

unchanged-IsValid :
    {k k' : Kernel}
    → IsValid k
    → k'.memory_map ≡ k.memory_map
    → k'.page_available ≡ k.page_available
    → k'.page_limit ≡ k.page_limit
    → IsValid k'
unchanged-IsValid {k} {k'} v same_map same_count same_limit = record {
  small = rw same_limit v.small;
  inside = λ c h. rw same_map (v.inside c (omega (arith, same_limit)));
  zero_page = rw same_map v.zero_page;
  counted = rw (same_map, same_count, same_limit) v.counted;
}

-- Every answer of `kernel_memory_alloc` for 1 to 2 ^ 35 pages on a valid state, EMPTY included,
-- leaves a valid state.
pub alloc-IsValid :
    (k : Kernel) (n a : ℕ) (k' : Kernel)
    → IsValid k
    → 0 < n
    → n ≤ 2 ^ 35
    → kernel_memory_alloc k n ≡ some (a, k')
    → IsValid k'
alloc-IsValid k n a k' v pos small e = elim (Bool-cases k.memory_page_semaphore) [
  | inl locked ↦ cc (alloc_blocked k n locked)
  | inr unlocked ↦
      let (k₁, ways) = alloc_lem k n v pos small unlocked in
      elim ways [
        | inl (page, answer, done) ↦
            subst IsValid (some_pair (sym answer ∙ e)).1 (Allocated-IsValid v done)
        | inr (answer, same_map, same_count, same_limit, _) ↦
            subst IsValid (some_pair (sym answer ∙ e)).1
              (unchanged-IsValid v same_map same_count same_limit)
      ]
]

-- Releasing a run of pages that are in use, inside the limit and above page 0, makes exactly
-- these available again.
pub available-release :
    (k : Kernel) (p n c : ℕ)
    → k.page_limit ≤ 2 ^ 35
    → p + n ≤ k.page_limit
    → 0 < n
    → available (kernel_memory_release k (page_address p) n).memory_map c
      ≡ (if in_run p n c then true else available k.memory_map c)
unfolding kernel_memory_release kernel_memory_dispose
available-release k p n c small within pos =
    rw (page_of_address p (omega arith), rounds-eq p n (omega arith))
      (available-dispose k.memory_map n p c)

-- Releasing a run of at least one page, none of them available, inside the limit and above page 0,
-- keeps a valid state valid.
pub release-IsValid :
    (k : Kernel) (p n : ℕ)
    → IsValid k
    → 0 < p
    → 0 < n
    → p + n ≤ k.page_limit
    → ((c : ℕ) → p ≤ c → c < p + n → available k.memory_map c ≡ false)
    → IsValid (kernel_memory_release k (page_address p) n)
release-IsValid k p n v above pos within in_use =
    let k' = kernel_memory_release k (page_address p) n in
    let after = λ (c : ℕ). available-release k p n c v.small within pos in
    let limit : k'.page_limit ≡ k.page_limit = unfold kernel_memory_release in refl in
    let total : k'.page_available ≡ add64 k.page_available n =
      unfold kernel_memory_release in refl in
    record {
      small = rw limit v.small;
      inside = λ c h. ground (arith, after c, v.inside c, limit);
      zero_page = ground (arith, after 0, v.zero_page);
      counted = omega (
        arith,
        limit,
        total,
        v.counted,
        v.small,
        ap (λ (t : ℕ). count k'.memory_map t 0) limit,
        count-le k.memory_map k.page_limit 0,
        count_remove k'.memory_map k.memory_map k.page_limit 0 p n (omega arith) (omega arith)
            (λ c h l. ground (arith, after c)) (λ c h. ground (arith, after c, in_use c)),
      );
    }

-- The state after a release, against one before the allocation.
record Restored (k : Kernel) (n c : ℕ) (made : ℕ × Kernel) : Type 0 where
  page : available (kernel_memory_release made.1 made.0 n).memory_map c ≡ available k.memory_map c
  counter : (kernel_memory_release made.1 made.0 n).page_available ≡ k.page_available

Allocated-Restored :
    {k k' : Kernel} {n p : ℕ} (c : ℕ)
    → IsValid k
    → 0 < n
    → n ≤ 2 ^ 35
    → Allocated k n p k'
    → Restored k n c (page_address p, k')
Allocated-Restored {k} {k'} {n} {p} c v pos small done = record {
  page = ground (
    arith,
    available-release k' p n c,
    done.after c,
    done.free c,
    done.limit,
    done.below,
    v.small,
  );
  counter =
      unfold kernel_memory_release in
      omega (arith, done.counter, v.counted, v.small, count-le k.memory_map k.page_limit 0, taken);
}
  where
    taken : n ≤ k.page_available
    taken = omega (
      arith,
      v.counted,
      count_remove k.memory_map k'.memory_map k.page_limit 0 p n (omega arith)
          (omega (arith, done.below)) done.free (λ c h. done.after c),
    )

-- On a valid state, an allocation of 1 to 2 ^ 35 pages with success and the release of the same
-- pages leave every page as available as it was, and the counter as it was.
pub release-alloc :
    (k : Kernel) (n a c : ℕ) (k' : Kernel)
    → IsValid k
    → 0 < n
    → n ≤ 2 ^ 35
    → kernel_memory_alloc k n ≡ some (a, k')
    → a ≢ 0
    → let k'' = kernel_memory_release k' a n in
      (available k''.memory_map c ≡ available k.memory_map c)
      × (k''.page_available ≡ k.page_available)
release-alloc k n a c k' v pos small e found = elim (Bool-cases k.memory_page_semaphore) [
  | inl locked ↦ cc (alloc_blocked k n locked)
  | inr unlocked ↦
      let (k₁, ways) = alloc_lem k n v pos small unlocked in
      elim ways [
        | inr (answer, _, _, _, _) ↦ absurd (found (sym (some_pair (sym answer ∙ e)).0))
        | inl (page, answer, done) ↦
            let restored : Restored k n c (a, k') =
              subst (Restored k n c) (some-injective _ _ (sym answer ∙ e))
                (Allocated-Restored c v pos small done) in
            (restored.page, restored.counter)
      ]
]
