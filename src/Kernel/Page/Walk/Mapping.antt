-- ===== src/Kernel/Page/Walk/Mapping.antt =====
-- kernel_page_map where the tables exist: what it writes, and what kernel_page_address then finds.
use fern_night.Prelude.{
  ℕ, zero, suc, ◌+◌, ◌-◌, ◌*◌, ◌/◌, ◌^◌, ◌≤◌, ◌<◌, bit_or, Bool, true, false, if◌then◌else◌, ◌≡◌,
  ap, ◌∙◌, ◌≢◌, arith,
}
use native.Mathlib.Decide.{ℕ_discrete}
use fern_night.Prelude.Machine.{add64, sub64}
use fern_night.Kernel.Memory.{store}
use fern_night.Kernel.Memory.Clean.{in_words}
use fern_night.Kernel.Page.{index2, index3, index4, slot, table_of}
use fern_night.Kernel.Page.Walk.{
  Job, Flow, returns, Entered, enters, ensure, level1, level, place_source,
}

-- What the lowest loop did with `n` pages from the slot at `a` on.
pub record Mapped (flags a n source : ℕ) (ram : ℕ → ℕ) (job : Job) : Type 0 where
  pub written :
      (x : ℕ)
      → job.kernel.ram x
        ≡ (if in_words a n x then bit_or (add64 source (4096 * ((x - a) / 8))) flags else ram x)

-- The job behind one slot.
abbrev placed : ℕ → ℕ → Job → Job
placed flags at job = record {
  kernel = record job.kernel { ram = store job.kernel.ram at (bit_or job.source flags) };
  pages = sub64 job.pages 1;
  source = add64 job.source 4096;
}

module _ (flags left table p : ℕ) (job : Job) where
  level1_last :
      job.pages ≡ 1
      → level1 (suc left) (place_source flags) table p job
        ≡ returns true (placed flags (slot table p) job)
  unfolding level1 place_source
  level1_last e = ground arith

  level1_next :
      1 < job.pages
      → job.pages < 2 ^ 64
      → level1 (suc left) (place_source flags) table p job
        ≡ level1 left (place_source flags) table (p + 1) (placed flags (slot table p) job)
  unfolding level1 place_source
  level1_next l h = ground arith

first_written :
    (source flags a x : ℕ)
    → x ≡ a
    → source < 2 ^ 64
    → bit_or (add64 source (4096 * ((x - a) / 8))) flags ≡ bit_or source flags
first_written source flags a x e h = ap (λ (t : ℕ). bit_or t flags) (omega arith)

later_written :
    (source flags a b x : ℕ)
    → b ≡ a + 8
    → b ≤ x
    → bit_or (add64 (add64 source 4096) (4096 * ((x - b) / 8))) flags
      ≡ bit_or (add64 source (4096 * ((x - a) / 8))) flags
later_written source flags a b x e h = ap (λ (t : ℕ). bit_or t flags) (omega arith)

pub level1-Mapped :
    (flags left table p : ℕ) (job : Job)
    → 0 < job.pages
    → job.pages ≤ left
    → job.pages < 2 ^ 64
    → table + 8 * (p + left) ≤ 2 ^ 64
    → job.source < 2 ^ 64
    → (job' : Job) × (level1 left (place_source flags) table p job ≡ returns true job')
      × Mapped flags (table + 8 * p) job.pages job.source job.kernel.ram job'
level1-Mapped flags zero table p job pos fits small room range = absurd (omega arith)
level1-Mapped flags (suc left) table p job pos fits small room range =
    elim (ℕ_discrete job.pages 1) [
      | yes e ↦ (
        placed flags (slot table p) job,
        level1_last flags left table p job e,
        record { written = λ x. ground (arith, first_written job.source flags (table + 8 * p) x) },
      )
      | no n ↦
          let job₁ = placed flags (slot table p) job in
          let (job', runs, m) =
            level1-Mapped flags left table (p + 1) job₁ (omega arith) (omega arith) (omega arith)
              (omega arith) (omega arith) in
          (
            job',
            level1_next flags left table p job (omega arith) small ∙ runs,
            record {
              written = λ x. ground (
                arith,
                m.written x,
                first_written job.source flags (table + 8 * p) x,
                later_written job.source flags (table + 8 * p) (table + 8 * (p + 1)) x,
              );
            },
          )
    ]

-- A round of an upper level that ends the function.
pub level_returns :
    (left : ℕ) (enter : ℕ → Job → Entered) (body : Bool → ℕ → Job → Flow) (first : Bool)
    (table p lower : ℕ) (job job' job'' : Job) (answer : Bool)
    → 0 < left
    → enter (slot table p) job ≡ enters lower job'
    → body first lower job' ≡ returns answer job''
    → level left enter body first table p job ≡ returns answer job''
unfolding level
level_returns zero enter body first table p lower job job' job'' answer h e b = absurd (omega arith)
level_returns (suc left) enter body first table p lower job job' job'' answer h e b = ground arith

-- A table that exists is entered.
pub ensure_present :
    (flags at : ℕ) (job : Job)
    → job.kernel.ram at ≢ 0
    → ensure flags at job ≡ enters (table_of (job.kernel.ram at)) job
unfolding ensure
ensure_present flags at job h = ground arith

-- The three upper tables on the way to an address.
abbrev pub table3 : (ℕ → ℕ) → ℕ → ℕ → ℕ
table3 ram pml4 address = table_of (ram (slot pml4 (index4 address)))

abbrev pub table2 : (ℕ → ℕ) → ℕ → ℕ → ℕ
table2 ram pml4 address = table_of (ram (slot (table3 ram pml4 address) (index3 address)))

abbrev pub table1 : (ℕ → ℕ) → ℕ → ℕ → ℕ
table1 ram pml4 address = table_of (ram (slot (table2 ram pml4 address) (index2 address)))

-- The tables exist, and none of their entries on the way to the address is one of the `n` words
-- from `a` on.
pub record IsPresent (ram : ℕ → ℕ) (pml4 address a n : ℕ) : Type 0 where
  pub entry4 : ram (slot pml4 (index4 address)) ≢ 0
  pub entry3 : ram (slot (table3 ram pml4 address) (index3 address)) ≢ 0
  pub entry2 : ram (slot (table2 ram pml4 address) (index2 address)) ≢ 0
  pub apart4 : in_words a n (slot pml4 (index4 address)) ≡ false
  pub apart3 : in_words a n (slot (table3 ram pml4 address) (index3 address)) ≡ false
  pub apart2 : in_words a n (slot (table2 ram pml4 address) (index2 address)) ≡ false
