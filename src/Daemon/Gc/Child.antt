-- ===== src/Daemon/Gc/Child.antt =====
-- `child` of daemon/gc.d.c: the recursion ends, and closes all descendants and no other task.
use fern_night.Prelude.{
  ℕ, zero, suc, ◌+◌, ◌≤◌, ◌<◌, true, ◌&&◌, Option, some, ◌==◌, ◌≡◌, refl, arith, inl, inr,
  Bool-cases,
}
use fern_night.Daemon.Gc.{Entry, limit, is_live, put, marked, children, child}
use fern_night.Daemon.Gc.Family.{Same-refl}
use fern_night.Daemon.Gc.Outcome.{
  IsOrdered, Outcome, Partial, with_child, without_child, marked-IsOrdered, whole,
}

-- A call that ends with what it should.
abbrev pub Ends : Option (ℕ → Entry) → (ℕ → Entry) → ℕ → Type 0
Ends result entries pid = (later : ℕ → Entry) × (result ≡ some later) × Outcome entries pid later

module _ (top pid : ℕ) (some_pid : 0 < pid) (visit : (ℕ → Entry) → ℕ → Option (ℕ → Entry))
    (calls : (e : ℕ → Entry) (q : ℕ)
      → IsOrdered top e
      → pid < q
      → q ≤ top
      → Ends (visit e q) e q) where
  children_lem :
      (left at : ℕ) (entries : ℕ → Entry)
      → at + left ≡ limit
      → IsOrdered top entries
      → (later : ℕ → Entry) × (children visit left at entries pid ≡ some later)
        × Partial at entries pid later
  unfolding children
  children_lem zero at entries e ordered = (
    entries,
    refl,
    record {
      same = Same-refl entries;
      kept = λ i h. h;
      idle = λ i h. h;
      child_ended = λ i low high alive p. absurd (omega arith);
      below_ended = λ j q i low high alive p t d. absurd (omega arith);
      only = λ i. inl refl;
    },
  )
  children_lem (suc left) at entries e ordered =
      elim (Bool-cases (is_live (entries at) && (entries at).pid_parent == pid)) [
        | inr other ↦
            let (later, run, r) = children_lem left (at + 1) entries (omega arith) ordered in
            (later, rw (other, children) run, without_child entries later at pid other r)
        | inl found ↦
            let live : is_live (entries at) ≡ true = ground arith in
            let parent : (entries at).pid_parent ≡ pid = ground arith in
            let (closed, run, o) =
              calls entries (entries at).pid ordered
                (omega (arith, parent, ordered.later at live (omega (arith, parent))))
                (ordered.last at live) in
            let (later, rest, r) =
              children_lem left (at + 1) (put closed at (marked (closed at))) (omega arith)
                (marked-IsOrdered top entries closed at live o.same ordered) in
            (
              later,
              rw (found, children) (rw run rest),
              with_child entries closed later at pid (omega arith) live parent o r,
            )
      ]

-- Let every living task have been added after its parent, unless that is the kernel, and let the
-- fuel reach from the task `pid`, which is not the kernel, to the last task. Then `child` ends; the
-- tasks stay the same and closed ones stay closed; every living descendant of `pid` is closed and
-- not active, and every other entry is as before.
pub child-Outcome :
    (fuel top pid : ℕ) (entries : ℕ → Entry)
    → IsOrdered top entries
    → 0 < pid
    → pid ≤ top
    → top < pid + fuel
    → Ends (child fuel entries pid) entries pid
unfolding child
child-Outcome zero top pid entries ordered h k enough = absurd (omega arith)
child-Outcome (suc fuel) top pid entries ordered h k enough =
    let (later, run, r) =
      children_lem top pid h (child fuel)
        (λ e q o more less. child-Outcome fuel top q e o (omega arith) less (omega arith)) limit 0
        entries refl ordered in
    (later, run, whole entries later pid r)
