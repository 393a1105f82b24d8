-- ===== src/Daemon/Gc/Freed.antt =====
-- One closed task that the collector in daemon/gc.d.c frees.
use fern_night.Prelude.{
  ℕ, ◌≤◌, ◌<◌, true, ◌==◌, ◌≡◌, ◌≢◌, refl, ap, subst, sym, ◌∙◌, arith, ◌⊎◌, inl, inr, Bool-cases,
}
use fern_night.Daemon.Gc.{Entry, limit, is_live, is_closed, freed}
use fern_night.Daemon.Gc.Family.{Descendant, direct, below, closed-live}
use fern_night.Daemon.Gc.Outcome.{Ended, IsOrdered, Outcome}

-- A queue whose closed tasks are not the kernel.
pub record IsQueue (top : ℕ) (entries : ℕ → Entry) : Type 0 where
  pub ordered : IsOrdered top entries
  pub user : (i : ℕ) → is_closed (entries i) ≡ true → 0 < (entries i).pid

-- What the collector is to free: the closed tasks and their living descendants.
pub data Doomed (entries : ℕ → Entry) : ℕ → Type 0 where
  itself : (i : ℕ) → i < limit → is_closed (entries i) ≡ true → Doomed entries i
  heir :
      (a q i : ℕ)
      → a < limit
      → is_closed (entries a) ≡ true
      → (entries a).pid ≡ q
      → Descendant entries q i
      → Doomed entries i

pub Descendant-living :
    (entries : ℕ → Entry) (pid i : ℕ)
    → Descendant entries pid i
    → (i < limit) × (is_live (entries i) ≡ true)
Descendant-living entries pid i (direct _ _ h live p) = (h, live)
Descendant-living entries pid i (below _ j q _ h live p e d) = Descendant-living entries q i d

pub Doomed-living :
    (entries : ℕ → Entry) (i : ℕ) → Doomed entries i → (i < limit) × (is_live (entries i) ≡ true)
Doomed-living entries i (itself _ h c) = (h, closed-live (entries i) c)
Doomed-living entries i (heir a q _ h c e d) = Descendant-living entries q i d

-- A descendant's descendants.
pub Descendant-trans :
    (entries : ℕ → Entry) (pid a q i : ℕ)
    → Descendant entries pid a
    → (entries a).pid ≡ q
    → Descendant entries q i
    → Descendant entries pid i
Descendant-trans entries pid a q i (direct _ _ h live p) e d = below pid a q i h live p e d
Descendant-trans entries pid a q i (below _ j r _ h live p e d') f d =
    below pid j r i h live p e (Descendant-trans entries r a q i d' f d)

Descendant-later :
    (top : ℕ) (entries : ℕ → Entry) (pid i : ℕ)
    → IsOrdered top entries
    → 0 < pid
    → Descendant entries pid i
    → pid < (entries i).pid
Descendant-later top entries pid i o h (direct _ _ l live p) =
    omega (arith, o.later i live (omega (arith, p)))
Descendant-later top entries pid i o h (below _ j q _ l live p e d) =
    let first = o.later j live (omega (arith, p)) in
    let rest = Descendant-later top entries q i o (omega arith) d in omega arith

-- Freed, or closed and not run again.
abbrev pub Handled : Entry → Type 0
Handled e = (e.flags ≡ 0) ⊎ Ended e

-- One closed task at `t`, whose descendants were closed, is freed.
module _ (top t : ℕ) (entries closed : ℕ → Entry) (small : t < limit) (queue : IsQueue top entries)
    (c : is_closed (entries t) ≡ true) (o : Outcome entries (entries t).pid closed) where
  pub next_self : (freed closed t t).flags ≡ 0
  unfolding freed
  next_self = ground arith

  pub next_other : (i : ℕ) → i ≢ t → freed closed t i ≡ closed i
  unfolding freed
  next_other i other = ground arith

  pub next_pid : (i : ℕ) → (freed closed t i).pid ≡ (entries i).pid
  unfolding freed
  next_pid i = ground (arith, o.same.same_pid i)

  pub next_parent : (i : ℕ) → (freed closed t i).pid_parent ≡ (entries i).pid_parent
  unfolding freed
  next_parent i = ground (arith, o.same.same_parent i)

  pub next_live :
      (i : ℕ) → is_live (freed closed t i) ≡ true → (is_live (entries i) ≡ true) × (i ≢ t)
  unfolding freed
  next_live i live = elim (Bool-cases (i == t)) [
    | inl here ↦ ground arith
    | inr there ↦ (sym (o.same.same_live i) ∙ ground arith, ground arith)
  ]

  pub live_next : (i : ℕ) → is_live (entries i) ≡ true → i ≢ t → is_live (freed closed t i) ≡ true
  unfolding freed
  live_next i live other = ground (arith, o.same.same_live i)

  pub split : (i : ℕ) → (i ≡ t) ⊎ (i ≢ t)
  split i = elim (Bool-cases (i == t)) [
    | inl here ↦ inl (ground arith)
    | inr there ↦ inr (ground arith)
  ]

  pub Ended-next : (i : ℕ) → Ended (closed i) → Handled (freed closed t i)
  Ended-next i e = elim (split i) [
    | inl here ↦ inl (ap (λ j. (freed closed t j).flags) here ∙ next_self)
    | inr other ↦ inr (subst Ended (sym (next_other i other)) e)
  ]

  pub Handled-next : (i : ℕ) → Handled (entries i) → Handled (freed closed t i)
  Handled-next i (inr (e, a)) = Ended-next i (o.kept i e, o.idle i a)
  Handled-next i (inl e) = elim (split i) [
    | inl here ↦ inl (ap (λ j. (freed closed t j).flags) here ∙ next_self)
    | inr other ↦
        inl (ap (λ (u : Entry). u.flags) (next_other i other) ∙ ground (arith, o.same.same_live i))
  ]

  -- A descendant that is not handled yet still is one.
  pub descendants_next :
      (pid i : ℕ)
      → Descendant entries pid i
      → Handled (freed closed t i) ⊎ Descendant (freed closed t) pid i
  descendants_next pid i (direct _ _ h live p) = elim (split i) [
    | inl here ↦ inl (inl (ap (λ j. (freed closed t j).flags) here ∙ next_self))
    | inr other ↦ inr (direct pid i h (live_next i live other) (next_parent i ∙ p))
  ]
  descendants_next pid i (below _ j q _ h live p e d) = elim (split j) [
    | inl here ↦ inl (
        Ended-next i (
          o.ended i
            (subst (λ t'. Descendant entries t' i) (sym e ∙ ap (λ j'. (entries j').pid) here) d)))
    | inr other ↦ elim (descendants_next q i d) [
      | inl handled ↦ inl handled
      | inr d' ↦
          inr (below pid j q i h (live_next j live other) (next_parent j ∙ p) (next_pid j ∙ e) d')
    ]
  ]

  pub descendants_back : (pid i : ℕ) → Descendant (freed closed t) pid i → Descendant entries pid i
  descendants_back pid i (direct _ _ h live p) =
      direct pid i h (next_live i live).0 (sym (next_parent i) ∙ p)
  descendants_back pid i (below _ j q _ h live p e d) =
      below pid j q i h (next_live j live).0 (sym (next_parent j) ∙ p) (sym (next_pid j) ∙ e)
        (descendants_back q i d)

  pub closed_back :
      (i : ℕ)
      → is_closed (freed closed t i) ≡ true
      → (is_closed (entries i) ≡ true) ⊎ Descendant entries (entries t).pid i
  closed_back i e = elim (split i) [
    | inl here ↦ inl (ap (λ j. is_closed (entries j)) here ∙ c)
    | inr other ↦ elim (o.only i) [
      | inr d ↦ inr d
      | inl f ↦ inl (sym (ap is_closed (next_other i other ∙ f)) ∙ e)
    ]
  ]

  pub closed_next :
      (i : ℕ) → i ≢ t → is_closed (entries i) ≡ true → is_closed (freed closed t i) ≡ true
  closed_next i other e = ap is_closed (next_other i other) ∙ o.kept i e

  pub free_next : (i : ℕ) → (entries i).flags ≡ 0 → (freed closed t i).flags ≡ 0
  free_next i e = elim (split i) [
    | inl here ↦ ap (λ j. (freed closed t j).flags) here ∙ next_self
    | inr other ↦
        ap (λ (u : Entry). u.flags) (next_other i other) ∙ ground (arith, o.same.same_live i)
  ]

  pub Doomed-back : (i : ℕ) → Doomed (freed closed t) i → Doomed entries i
  Doomed-back i (itself _ h e) = elim (closed_back i e) [
    | inl f ↦ itself i h f
    | inr d ↦ heir t (entries t).pid i small c refl d
  ]
  Doomed-back i (heir a q _ h e f d) = elim (closed_back a e) [
    | inl g ↦ heir a q i h g (sym (next_pid a) ∙ f) (descendants_back q i d)
    | inr g ↦ heir t (entries t).pid i small c refl (
        Descendant-trans entries (entries t).pid a q i g (sym (next_pid a) ∙ f)
          (descendants_back q i d))
  ]

  pub only_next : (i : ℕ) → (freed closed t i ≡ entries i) ⊎ Doomed entries i
  only_next i = elim (split i) [
    | inl here ↦ inr (subst (Doomed entries) (sym here) (itself t small c))
    | inr other ↦ elim (o.only i) [
      | inl f ↦ inl (next_other i other ∙ f)
      | inr d ↦ inr (heir t (entries t).pid i small c refl d)
    ]
  ]

  later_next :
      (i : ℕ)
      → is_live (freed closed t i) ≡ true
      → 0 < (freed closed t i).pid_parent
      → (freed closed t i).pid_parent < (freed closed t i).pid
  later_next i live h = omega (
    arith,
    queue.ordered.later i (next_live i live).0 (omega (arith, next_parent i)),
    next_parent i,
    next_pid i,
  )

  last_next : (i : ℕ) → is_live (freed closed t i) ≡ true → (freed closed t i).pid ≤ top
  last_next i live = omega (arith, queue.ordered.last i (next_live i live).0, next_pid i)

  user_next : (i : ℕ) → is_closed (freed closed t i) ≡ true → 0 < (freed closed t i).pid
  user_next i e = elim (closed_back i e) [
    | inl f ↦ omega (arith, queue.user i f, next_pid i)
    | inr d ↦ omega (
      arith,
      Descendant-later top entries (entries t).pid i queue.ordered (queue.user t c) d,
      next_pid i,
    )
  ]

  pub next_queue : IsQueue top (freed closed t)
  next_queue = record {
    ordered = record { later = later_next; last = last_next };
    user = user_next;
  }
