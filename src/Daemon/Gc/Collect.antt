-- ===== src/Daemon/Gc/Collect.antt =====
-- A round of the collector in daemon/gc.d.c: what it frees, and what it leaves for the next round.
use fern_night.Prelude.{
  ℕ, zero, suc, ◌+◌, ◌≤◌, ◌<◌, true, false, Option, some, ◌==◌, ◌≡◌, refl, ap, subst, sym, ◌∙◌,
  arith, ◌⊎◌, inl, inr, Bool-cases, ==_iff,
}
use fern_night.Daemon.Gc.{Entry, Kernel, limit, is_closed, freed, released, search_closed, collect}
use fern_night.Daemon.Gc.Family.{Descendant, closed-live}
use fern_night.Daemon.Gc.Child.{child-Outcome}
use fern_night.Daemon.Gc.Outcome.{Outcome}
use fern_night.Daemon.Gc.Freed.{
  IsQueue, Doomed, itself, heir, Doomed-living, Handled, next_self, next_pid, split, Ended-next,
  Handled-next, descendants_next, closed_next, free_next, Doomed-back, only_next, next_queue,
}

-- What the search from the entry `at` on leaves.
record Swept (top at : ℕ) (entries later : ℕ → Entry) : Type 0 where
  pub gone : (i : ℕ) → at ≤ i → i < limit → is_closed (entries i) ≡ true → (later i).flags ≡ 0
  pub heirs :
      (a q i : ℕ)
      → at ≤ a
      → a < limit
      → is_closed (entries a) ≡ true
      → (entries a).pid ≡ q
      → Descendant entries q i
      → Handled (later i)
  pub handled : (i : ℕ) → Handled (entries i) → Handled (later i)
  pub free : (i : ℕ) → (entries i).flags ≡ 0 → (later i).flags ≡ 0
  pub only : (i : ℕ) → (later i ≡ entries i) ⊎ Doomed entries i
  pub queue : IsQueue top later

module _ (top t : ℕ) (entries closed later : ℕ → Entry) (small : t < limit)
    (queue : IsQueue top entries) (c : is_closed (entries t) ≡ true)
    (o : Outcome entries (entries t).pid closed)
    (r : Swept top (t + 1) (freed closed t) later) where
  step_gone : (i : ℕ) → t ≤ i → i < limit → is_closed (entries i) ≡ true → (later i).flags ≡ 0
  step_gone i low high e = elim (split top t entries closed small queue c o i) [
    | inl here ↦
        r.free i
          (ap (λ j. (freed closed t j).flags) here ∙ next_self top t entries closed small queue c o)
    | inr other ↦
        r.gone i (omega arith) high (closed_next top t entries closed small queue c o i other e)
  ]

  step_heirs :
      (a q i : ℕ)
      → t ≤ a
      → a < limit
      → is_closed (entries a) ≡ true
      → (entries a).pid ≡ q
      → Descendant entries q i
      → Handled (later i)
  step_heirs a q i low high e f d = elim (split top t entries closed small queue c o a) [
    | inl here ↦ r.handled i (
        Ended-next top t entries closed small queue c o i (
          o.ended i
            (subst (λ u. Descendant entries u i) (sym f ∙ ap (λ j. (entries j).pid) here) d)))
    | inr other ↦ elim (descendants_next top t entries closed small queue c o q i d) [
      | inl h ↦ r.handled i h
      | inr d' ↦
          r.heirs a q i (omega arith) high
            (closed_next top t entries closed small queue c o a other e)
            (next_pid top t entries closed small queue c o a ∙ f) d'
    ]
  ]

  step_only : (i : ℕ) → (later i ≡ entries i) ⊎ Doomed entries i
  step_only i = elim (r.only i) [
    | inr d ↦ inr (Doomed-back top t entries closed small queue c o i d)
    | inl e ↦ elim (only_next top t entries closed small queue c o i) [
      | inl f ↦ inl (e ∙ f)
      | inr d ↦ inr d
    ]
  ]

  with_closed : Swept top t entries later
  with_closed = record {
    gone = step_gone;
    heirs = step_heirs;
    handled = λ i h. r.handled i (Handled-next top t entries closed small queue c o i h);
    free = λ i h. r.free i (free_next top t entries closed small queue c o i h);
    only = step_only;
    queue = r.queue;
  }

-- An entry that is not closed is passed over.
module _ (top at : ℕ) (entries later : ℕ → Entry) (other : is_closed (entries at) ≡ false)
    (r : Swept top (at + 1) entries later) where
  beyond : (i : ℕ) → at ≤ i → is_closed (entries i) ≡ true → at + 1 ≤ i
  beyond i low c = elim (Bool-cases (i == at)) [
    | inl here ↦ ground (arith, ap (λ j. (entries j).flags) ((==_iff i at).0 here))
    | inr elsewhere ↦ ground arith
  ]

  without_closed : Swept top at entries later
  without_closed = record {
    gone = λ i low high c. r.gone i (beyond i low c) high c;
    heirs = λ a q i low high c f d. r.heirs a q i (beyond a low c) high c f d;
    handled = r.handled;
    free = r.free;
    only = r.only;
    queue = r.queue;
  }

-- A search that ends with what it should.
abbrev Sweeps : Option Kernel → ℕ → ℕ → (ℕ → Entry) → Type 0
Sweeps result top at entries = (k : Kernel) × (result ≡ some k) × Swept top at entries k.entries

search_Swept :
    (fuel top left at : ℕ) (k : Kernel)
    → at + left ≡ limit
    → IsQueue top k.entries
    → top < fuel
    → Sweeps (search_closed fuel left at k) top at k.entries
unfolding search_closed released
search_Swept fuel top zero at k e queue enough = (
  k,
  refl,
  record {
    gone = λ i low high c. absurd (omega arith);
    heirs = λ a q i low high c f d. absurd (omega arith);
    handled = λ i h. h;
    free = λ i h. h;
    only = λ i. inl refl;
    queue = queue;
  },
)
search_Swept fuel top (suc left) at k e queue enough =
    elim (Bool-cases (is_closed (k.entries at))) [
      | inr other ↦
          let (last, run, r) = search_Swept fuel top left (at + 1) k (omega arith) queue enough in
          (
            last,
            rw (other, search_closed) run,
            without_closed top at k.entries last.entries other r,
          )
      | inl c ↦
          let (closed, ends, o) =
            child-Outcome fuel top (k.entries at).pid k.entries queue.ordered (queue.user at c)
              (queue.ordered.last at (closed-live (k.entries at) c)) (omega arith) in
          let (last, run, r) =
            search_Swept fuel top left (at + 1) (released (record k { entries = closed }) at)
              (omega arith) (next_queue top at k.entries closed (omega arith) queue c o) enough in
          (
            last,
            rw (c, search_closed) (rw ends run),
            with_closed top at k.entries closed last.entries (omega arith) queue c o r,
          )
    ]

-- What a round leaves: closed tasks are freed; their living descendants are freed, or closed and not
-- active; other entries are as before; and the queue stays in order.
pub record Round (top : ℕ) (entries later : ℕ → Entry) : Type 0 where
  pub gone : (i : ℕ) → i < limit → is_closed (entries i) ≡ true → (later i).flags ≡ 0
  pub handled : (i : ℕ) → Doomed entries i → Handled (later i)
  pub free : (i : ℕ) → (entries i).flags ≡ 0 → (later i).flags ≡ 0
  pub only : (i : ℕ) → (later i ≡ entries i) ⊎ Doomed entries i
  pub queue : IsQueue top later

Swept-Handled :
    (top : ℕ) (entries later : ℕ → Entry)
    → Swept top 0 entries later
    → (i : ℕ) → Doomed entries i
    → Handled (later i)
Swept-Handled top entries later r i (itself _ h c) = inl (r.gone i (omega arith) h c)
Swept-Handled top entries later r i (heir a q _ h c e d) = r.heirs a q i (omega arith) h c e d

-- Let every living task have been added after its parent, unless that is the kernel, let the kernel
-- not be closed, and let the fuel be more than the number of the last task. Then a round of the
-- collector ends. Each closed task is freed, each living descendant of one is freed or else closed
-- and not active, what was free stays free, every other entry is as before, and the conditions hold
-- again.
pub collect-Round :
    (fuel top : ℕ) (k : Kernel)
    → IsQueue top k.entries
    → top < fuel
    → (later : Kernel) × (collect fuel k ≡ some later) × Round top k.entries later.entries
unfolding collect
collect-Round fuel top k queue enough =
    let (later, run, r) = search_Swept fuel top limit 0 k refl queue enough in
    (
      later,
      run,
      record {
        gone = λ i h c. r.gone i (omega arith) h c;
        handled = Swept-Handled top k.entries later.entries r;
        free = r.free;
        only = r.only;
        queue = r.queue;
      },
    )

twice :
    (top : ℕ) (entries later last : ℕ → Entry)
    → Round top entries later
    → Round top later last
    → (i : ℕ) → Doomed entries i
    → (last i).flags ≡ 0
twice top entries later last r s i d = elim (r.handled i d) [
  | inl gone ↦ s.free i gone
  | inr (closed, idle) ↦ s.gone i (Doomed-living entries i d).0 closed
]

-- Let every living task have been added after its parent, unless that is the kernel, let the kernel
-- not be closed, and let the fuel be more than the number of the last task. Then two rounds of the
-- collector, with nothing in between, end, and they free each closed task and all its living
-- descendants.
pub collect-twice :
    (fuel top : ℕ) (k : Kernel)
    → IsQueue top k.entries
    → top < fuel
    → (later last : Kernel) × (collect fuel k ≡ some later)
      × (collect fuel later ≡ some last)
      × ((i : ℕ) → Doomed k.entries i → (last.entries i).flags ≡ 0)
collect-twice fuel top k queue enough =
    let (later, run, r) = collect-Round fuel top k queue enough in
    let (last, again, s) = collect-Round fuel top later r.queue enough in
    (later, last, run, again, twice top k.entries later.entries last.entries r s)
