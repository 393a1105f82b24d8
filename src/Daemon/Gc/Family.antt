-- ===== src/Daemon/Gc/Family.antt =====
-- The descendants of a task in the queue, and queues that differ in their flags only.
use fern_night.Prelude.{
  ℕ, ◌-◌, ◌^◌, ◌<◌, bit_and, bit_or, true, false, ◌≡◌, refl, ap, sym, ◌∙◌, arith,
}
use fern_night.Prelude.Bits.{
  bit_at-lt, bit_at-bit_and, bit_at-bit_or, bit_at-pow_self, bit_at-pow_ne, bit_at-complement,
  bit_and-pow,
}
use fern_night.Daemon.Gc.{
  Entry, limit, is_live, is_closed, is_active, marked, flag_active, flag_exec, without,
}

-- The living descendants of the task `pid`.
pub data Descendant (entries : ℕ → Entry) : ℕ → ℕ → Type 0 where
  direct :
      (pid i : ℕ)
      → i < limit
      → is_live (entries i) ≡ true
      → (entries i).pid_parent ≡ pid
      → Descendant entries pid i
  below :
      (pid j q i : ℕ)
      → j < limit
      → is_live (entries j) ≡ true
      → (entries j).pid_parent ≡ pid
      → (entries j).pid ≡ q
      → Descendant entries q i
      → Descendant entries pid i

-- Queues with the same tasks.
pub record Same (entries later : ℕ → Entry) : Type 0 where
  pub same_pid : (i : ℕ) → (later i).pid ≡ (entries i).pid
  pub same_parent : (i : ℕ) → (later i).pid_parent ≡ (entries i).pid_parent
  pub same_live : (i : ℕ) → is_live (later i) ≡ is_live (entries i)

pub Same-refl : (entries : ℕ → Entry) → Same entries entries
Same-refl entries = record { same_pid = λ i. refl; same_parent = λ i. refl; same_live = λ i. refl }

pub Same-trans : {a b c : ℕ → Entry} → Same a b → Same b c → Same a c
Same-trans s t = record {
  same_pid = λ i. t.same_pid i ∙ s.same_pid i;
  same_parent = λ i. t.same_parent i ∙ s.same_parent i;
  same_live = λ i. t.same_live i ∙ s.same_live i;
}

pub Descendant-Same :
    {a b : ℕ → Entry} (s : Same a b) (pid i : ℕ) → Descendant a pid i → Descendant b pid i
Descendant-Same s pid i (direct _ _ h live parent) =
    direct pid i h (s.same_live i ∙ live) (s.same_parent i ∙ parent)
Descendant-Same s pid i (below _ j q _ h live parent e d) =
    below pid j q i h (s.same_live j ∙ live) (s.same_parent j ∙ parent) (s.same_pid j ∙ e)
      (Descendant-Same s q i d)

pub Descendant-Same_back :
    {a b : ℕ → Entry} (s : Same a b) (pid i : ℕ) → Descendant b pid i → Descendant a pid i
Descendant-Same_back s pid i (direct _ _ h live parent) =
    direct pid i h (sym (s.same_live i) ∙ live) (sym (s.same_parent i) ∙ parent)
Descendant-Same_back s pid i (below _ j q _ h live parent e d) =
    below pid j q i h (sym (s.same_live j) ∙ live) (sym (s.same_parent j) ∙ parent)
      (sym (s.same_pid j) ∙ e) (Descendant-Same_back s q i d)

-- A marked entry is closed, and it is not active.
pub marked_closed : (e : Entry) → is_closed (marked e) ≡ true
unfolding marked
marked_closed e =
    let x = without flag_exec (without flag_active e.flags) in
    ground
      (arith, bit_and-pow (bit_or x 4) 2, bit_at-bit_or x 4 2, bit_at-pow_self 2, bit_at-lt x 2)

pub marked_inactive : (e : Entry) → is_active (marked e) ≡ false
unfolding marked
marked_inactive e =
    let y = without flag_active e.flags in
    let x = without flag_exec y in
    ground (
      arith,
      bit_and-pow (bit_or x 4) 0,
      bit_at-bit_or x 4 0,
      bit_at-pow_ne 2 0 (omega arith),
      bit_at-bit_and y (2 ^ 16 - 1 - flag_exec) 0,
      bit_at-bit_and e.flags (2 ^ 16 - 1 - flag_active) 0,
      bit_at-complement 16 1 0 (omega arith) (omega arith),
      bit_at-pow_self 0,
    )

pub closed-live : (e : Entry) → is_closed e ≡ true → is_live e ≡ true
closed-live e h = ground (arith, ap (λ (n : ℕ). bit_and n 4) {x = e.flags} {y = 0})
