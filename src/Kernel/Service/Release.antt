-- ===== src/Kernel/Service/Release.antt =====
-- kernel_service_memory_release: what it does to the memory map of the process.
use fern_night.Prelude.{
  ℕ, zero, suc, ◌+◌, ◌/◌, ◌^◌, ◌<◌, bit_and, true, false, Option, none, some, ◌≡◌, ◌≢◌, inl, inr,
  ap, Option-cases, sym, ◌∙◌, arith,
}
use native.Mathlib.Decide.{ℕ_discrete}
use fern_night.Prelude.Bits.{bit_and-low_mask}
use fern_night.Prelude.Machine.{add64, shl64, complement64, mirror}
use fern_night.Kernel.Memory.{
  Map, available, rounds, Kernel, dispose, kernel_memory_acquire, kernel_memory_dispose,
}
use fern_night.Kernel.Memory.Acquire.{rounds-eq, dispose-next, dispose-zero, acquire_first_fit}
use fern_night.Kernel.Memory.Map.{available-dispose}
use fern_night.Kernel.Service.{
  Process, pages_of, process_flags, give_back, release_pages, kernel_service_memory_release,
  kernel_service_memory_alloc,
}
use fern_night.Kernel.Page.{kernel_page_remove}
use fern_night.Kernel.Page.Walk.{kernel_page_alloc}

give_back-memory_map :
    (page : ℕ) (k : Kernel) (task : Process)
    → ((give_back page k task).1).memory_map ≡ task.memory_map
unfolding give_back
give_back-memory_map page k task = ground arith

release_pages-memory_map :
    (left i : ℕ) (k : Kernel) (task : Process)
    → i + left < 2 ^ 64
    → ((release_pages left i k task).1).memory_map ≡ dispose task.memory_map left i
unfolding release_pages
release_pages-memory_map zero i k task h = sym (dispose-zero task.memory_map i)
release_pages-memory_map (suc left) i k task h =
    let removed = kernel_page_remove k.ram task.cr3 (shl64 i 12) in
    let next = give_back removed.0 (record k { ram = removed.1 }) task in
    release_pages-memory_map left (i + 1) next.0
      (record next.1 { memory_map = kernel_memory_dispose (next.1).memory_map i 1 }) (omega arith)
    ∙ ap (λ (m : Map). dispose (kernel_memory_dispose m i 1) left (i + 1))
        (give_back-memory_map removed.0 (record k { ram = removed.1 }) task)
    ∙ sym (dispose-next task.memory_map left i (omega arith))

-- The run of pages that an address and a size stand for.
abbrev pub first_page : ℕ → ℕ
first_page address = bit_and address (complement64 mirror) / 4096

release-memory_map :
    (k : Kernel) (task : Process) (address bytes : ℕ)
    → first_page address + pages_of bytes < 2 ^ 64
    → ((kernel_service_memory_release k task address bytes).1).memory_map
      ≡ dispose task.memory_map (pages_of bytes) (first_page address)
unfolding kernel_service_memory_release
release-memory_map k task address bytes h =
    release_pages-memory_map (rounds (first_page address) (pages_of bytes)) (first_page address) k
      task (omega (arith, rounds-eq (first_page address) (pages_of bytes) h))
    ∙ ap (λ (n : ℕ). dispose task.memory_map n (first_page address))
        (rounds-eq (first_page address) (pages_of bytes) h)

-- The address and the process of an allocation are determined.
some_triple :
    {a b : ℕ} {j k : Kernel} {x y : Process}
    → ◌≡◌ {A = Option (ℕ × Kernel × Process)} (some (a, j, x)) (some (b, k, y))
    → (a ≡ b) × (x ≡ y)
some_triple {a = a} {j = j} {x = x} e = (
  ap (λ (o : Option (ℕ × Kernel × Process)). elim o [ none ↦ a | some t ↦ t.0 ]) e,
  ap (λ (o : Option (ℕ × Kernel × Process)). elim o [ none ↦ x | some t ↦ t.2 ]) e,
)

-- An allocation that succeeds gives the address of the run that the map of the process gave.
alloc-acquire :
    (k : Kernel) (task : Process) (bytes address : ℕ) (k' : Kernel) (task' : Process)
    → kernel_service_memory_alloc k task bytes ≡ some (address, k', task')
    → (address ≡ shl64 (kernel_memory_acquire task.memory_map k.page_limit (pages_of bytes)).0 12)
      × (task'.memory_map ≡ (kernel_memory_acquire task.memory_map k.page_limit (pages_of bytes)).1)
unfolding kernel_service_memory_alloc
alloc-acquire k task bytes address k' task' e =
    let run = kernel_memory_acquire task.memory_map k.page_limit (pages_of bytes) in
    elim (ℕ_discrete (shl64 run.0 12) 0) [
      | yes z ↦
          let computed : kernel_service_memory_alloc k task bytes
              ≡ some (0, k, record task { memory_map = run.1 }) =
            ground (arith, z) in
          let (a, t) = some_triple (sym e ∙ computed) in
          (a ∙ sym z, ap (λ (x : Process). x.memory_map) t)
      | no n ↦
          elim (Option-cases
            (kernel_page_alloc k task.cr3 (shl64 run.0 12) (pages_of bytes) process_flags)) [
              | inl f ↦ absurd (ground (arith, f, e))
              | inr ((true, k₁), f) ↦
                  let task₁ = record task {
                    memory_map = run.1;
                    page = add64 task.page (pages_of bytes);
                  } in
                  let computed : kernel_service_memory_alloc k task bytes
                      ≡ some (shl64 run.0 12, k₁, task₁) =
                    ground (arith, f) in
                  let (a, t) = some_triple (sym e ∙ computed) in
                  (a, ap (λ (x : Process). x.memory_map) t)
              | inr ((false, k₁), f) ↦ absurd (ground (arith, f, e))
            ]
    ]

first_page-run : (p : ℕ) → p < 2 ^ 35 → first_page (shl64 p 12) ≡ p
first_page-run p h = omega (arith, bit_and-low_mask 47 (shl64 p 12))

-- Whatever happened to the kernel in between, `kernel_service_memory_release` with the address and
-- the size of a successful `kernel_service_memory_alloc` makes exactly those pages of the process's
-- map available again, where the pages lie below the 47 bits that an address keeps.
pub service_release-alloc :
    (k k' k'' : Kernel) (task task' : Process) (bytes address c : ℕ)
    → k.page_limit + pages_of bytes < 2 ^ 35
    → kernel_service_memory_alloc k task bytes ≡ some (address, k', task')
    → address ≢ 0
    → available ((kernel_service_memory_release k'' task' address bytes).1).memory_map c
      ≡ available task.memory_map c
service_release-alloc k k' k'' task task' bytes address c small e nonzero =
    let (at, map_is) = alloc-acquire k task bytes address k' task' e in
    elim (acquire_first_fit task.memory_map k.page_limit (pages_of bytes) (omega arith)) [
      | inr (z, _, _) ↦ absurd (nonzero (at ∙ ap (λ (p : ℕ). shl64 p 12) z))
      | inl (below, whole, _, after) ↦
          let page = (kernel_memory_acquire task.memory_map k.page_limit (pages_of bytes)).0 in
          let here : first_page address ≡ page =
            ap first_page at ∙ first_page-run page (omega arith) in
          ap (λ (m : Map). available m c)
            (release-memory_map k'' task' address bytes (omega arith)
              ∙ ap (λ (p : ℕ). dispose task'.memory_map (pages_of bytes) p) here
              ∙ ap (λ (m : Map). dispose m (pages_of bytes) page) map_is)
          ∙ (ground (
            arith,
            available-dispose
                ((kernel_memory_acquire task.memory_map k.page_limit (pages_of bytes)).1)
                (pages_of bytes) page c,
            after c,
            whole c,
          ))
    ]
