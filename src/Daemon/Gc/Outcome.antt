-- ===== src/Daemon/Gc/Outcome.antt =====
-- What `child` of daemon/gc.d.c leaves, put together from what its loop does at each entry.
use fern_night.Prelude.{
  ℕ, ◌+◌, ◌≤◌, ◌<◌, true, false, ◌&&◌, ◌==◌, ◌≡◌, refl, ap, subst, sym, ◌∙◌, arith, ◌⊎◌, inl, inr,
  Bool-cases, ==_iff,
}
use fern_night.Daemon.Gc.{Entry, limit, is_live, is_closed, is_active, put, marked}
use fern_night.Daemon.Gc.Family.{
  Descendant, direct, below, Same, Same-trans, Descendant-Same, Descendant-Same_back, marked_closed,
  marked_inactive, closed-live,
}

-- A task that is closed and will not be run again.
abbrev pub Ended : Entry → Type 0
Ended e = (is_closed e ≡ true) × (is_active e ≡ false)

-- The living tasks were added after their parents, of which the kernel itself is 0, and there is
-- none after `top`.
pub record IsOrdered (top : ℕ) (entries : ℕ → Entry) : Type 0 where
  pub later :
      (i : ℕ)
      → is_live (entries i) ≡ true
      → 0 < (entries i).pid_parent
      → (entries i).pid_parent < (entries i).pid
  pub last : (i : ℕ) → is_live (entries i) ≡ true → (entries i).pid ≤ top

pub IsOrdered-Same : {top : ℕ} {a b : ℕ → Entry} → Same a b → IsOrdered top a → IsOrdered top b
IsOrdered-Same s o = record {
  later = λ i live some_parent.
      let old = o.later i (sym (s.same_live i) ∙ live) in
      omega (arith, old, s.same_pid i, s.same_parent i);
  last = λ i live. omega (arith, o.last i (sym (s.same_live i) ∙ live), s.same_pid i);
}

-- What a call leaves: the tasks stay the same, closed ones stay so, all descendants have ended, and
-- other entries are as before.
pub record Outcome (entries : ℕ → Entry) (pid : ℕ) (later : ℕ → Entry) : Type 0 where
  pub same : Same entries later
  pub kept : (i : ℕ) → is_closed (entries i) ≡ true → is_closed (later i) ≡ true
  pub idle : (i : ℕ) → is_active (entries i) ≡ false → is_active (later i) ≡ false
  pub ended : (i : ℕ) → Descendant entries pid i → Ended (later i)
  pub only : (i : ℕ) → (later i ≡ entries i) ⊎ Descendant entries pid i

-- The same, for the children from `at` on.
pub record Partial (at : ℕ) (entries : ℕ → Entry) (pid : ℕ) (later : ℕ → Entry) : Type 0 where
  pub same : Same entries later
  pub kept : (i : ℕ) → is_closed (entries i) ≡ true → is_closed (later i) ≡ true
  pub idle : (i : ℕ) → is_active (entries i) ≡ false → is_active (later i) ≡ false
  pub child_ended :
      (i : ℕ)
      → at ≤ i
      → i < limit
      → is_live (entries i) ≡ true
      → (entries i).pid_parent ≡ pid
      → Ended (later i)
  pub below_ended :
      (j q i : ℕ)
      → at ≤ j
      → j < limit
      → is_live (entries j) ≡ true
      → (entries j).pid_parent ≡ pid
      → (entries j).pid ≡ q
      → Descendant entries q i
      → Ended (later i)
  pub only : (i : ℕ) → (later i ≡ entries i) ⊎ Descendant entries pid i

-- One entry marked.
module _ (entries : ℕ → Entry) (at : ℕ) (live : is_live (entries at) ≡ true) where
  pub mark-Same : Same entries (put entries at (marked (entries at)))
  unfolding marked
  mark-Same = record {
    same_pid = λ i. ground arith;
    same_parent = λ i. ground arith;
    same_live = λ i. ground (arith, closed-live (marked (entries at)) (marked_closed (entries at)));
  }

  pub mark_closed :
      (i : ℕ)
      → is_closed (entries i) ≡ true
      → is_closed (put entries at (marked (entries at)) i) ≡ true
  mark_closed i h = ground (arith, marked_closed (entries at))

  mark_idle :
      (i : ℕ)
      → is_active (entries i) ≡ false
      → is_active (put entries at (marked (entries at)) i) ≡ false
  mark_idle i h = ground (arith, marked_inactive (entries at))

  mark_self : Ended (put entries at (marked (entries at)) at)
  mark_self =
      (ground (arith, marked_closed (entries at)), ground (arith, marked_inactive (entries at)))

-- A child that is closed with its descendants, and then the entries behind it.
module _ (entries closed later : ℕ → Entry) (at pid : ℕ) (small : at < limit)
    (live : is_live (entries at) ≡ true) (parent : (entries at).pid_parent ≡ pid)
    (o : Outcome entries (entries at).pid closed)
    (r : Partial (at + 1) (put closed at (marked (closed at))) pid later) where
  abbrev next : ℕ → Entry
  next = put closed at (marked (closed at))

  closed_live : is_live (closed at) ≡ true
  closed_live = o.same.same_live at ∙ live

  next-Same : Same entries next
  next-Same = Same-trans o.same (mark-Same closed at closed_live)

  later-Ended : (i : ℕ) → Ended (next i) → Ended (later i)
  later-Ended i (c, a) = (r.kept i c, r.idle i a)

  below_child : (i : ℕ) → Descendant entries (entries at).pid i → Ended (later i)
  below_child i d =
      let (c, a) = o.ended i d in
      later-Ended i (mark_closed closed at closed_live i c, mark_idle closed at closed_live i a)

  only_child : (i : ℕ) → (later i ≡ entries i) ⊎ Descendant entries pid i
  only_child i = elim (r.only i) [
    | inr d ↦ inr (Descendant-Same_back next-Same pid i d)
    | inl e ↦ elim (o.only i) [
      | inr d ↦ inr (below pid at (entries at).pid i small live parent refl d)
      | inl f ↦ elim (Bool-cases (i == at)) [
        | inl here ↦ inr (
            subst (Descendant entries pid) (sym ((==_iff i at).0 here))
              (direct pid at small live parent))
        | inr elsewhere ↦ inl (e ∙ ground (arith, f))
      ]
    ]
  ]

  pub with_child : Partial at entries pid later
  with_child = record {
    same = Same-trans next-Same r.same;
    kept = λ i h. r.kept i (mark_closed closed at closed_live i (o.kept i h));
    idle = λ i h. r.idle i (mark_idle closed at closed_live i (o.idle i h));
    child_ended = λ i low high alive p. elim (Bool-cases (i == at)) [
      | inl here ↦
          subst (λ t. Ended (later t)) (sym ((==_iff i at).0 here))
            (later-Ended at (mark_self closed at closed_live))
      | inr elsewhere ↦
          r.child_ended i (ground arith) high (next-Same.same_live i ∙ alive)
            (next-Same.same_parent i ∙ p)
    ];
    below_ended = λ j q i low high alive p e d. elim (Bool-cases (j == at)) [
      | inl here ↦ below_child i (
          subst (λ t. Descendant entries t i)
            (sym e ∙ ap (λ t. (entries t).pid) ((==_iff j at).0 here)) d)
      | inr elsewhere ↦
          r.below_ended j q i (ground arith) high (next-Same.same_live j ∙ alive)
            (next-Same.same_parent j ∙ p) (next-Same.same_pid j ∙ e)
            (Descendant-Same next-Same q i d)
    ];
    only = only_child;
  }

-- An entry that is no child is passed over.
module _ (entries later : ℕ → Entry) (at pid : ℕ)
    (other : (is_live (entries at) && (entries at).pid_parent == pid) ≡ false)
    (r : Partial (at + 1) entries pid later) where
  passed : (i : ℕ) → at ≤ i → is_live (entries i) ≡ true → (entries i).pid_parent ≡ pid → at + 1 ≤ i
  passed i low alive p = elim (Bool-cases (i == at)) [
    | inl here ↦
        let same = (==_iff i at).0 here in
        ground (arith, ap (λ t. (entries t).pid_parent) same, ap (λ t. (entries t).flags) same)
    | inr elsewhere ↦ ground arith
  ]

  pub without_child : Partial at entries pid later
  without_child = record {
    same = r.same;
    kept = r.kept;
    idle = r.idle;
    child_ended = λ i low high alive p. r.child_ended i (passed i low alive p) high alive p;
    below_ended =
        λ j q i low high alive p e d. r.below_ended j q i (passed j low alive p) high alive p e d;
    only = r.only;
  }

pub marked-IsOrdered :
    (top : ℕ) (entries closed : ℕ → Entry) (at : ℕ)
    → is_live (entries at) ≡ true
    → Same entries closed
    → IsOrdered top entries
    → IsOrdered top (put closed at (marked (closed at)))
marked-IsOrdered top entries closed at live same ordered =
    IsOrdered-Same (Same-trans same (mark-Same closed at (same.same_live at ∙ live))) ordered

-- All children were passed.
pub whole :
    (entries later : ℕ → Entry) (pid : ℕ) → Partial 0 entries pid later → Outcome entries pid later
whole entries later pid r = record {
  same = r.same;
  kept = r.kept;
  idle = r.idle;
  ended = λ i d. elim d [
    | direct _ _ high alive p ↦ r.child_ended i (omega arith) high alive p
    | below _ j q _ high alive p e d' ↦ r.below_ended j q i (omega arith) high alive p e d'
  ];
  only = r.only;
}
