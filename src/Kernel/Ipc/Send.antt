-- ===== src/Kernel/Ipc/Send.antt =====
-- kernel_service_ipc_send: when it returns, and what it overwrites.
use fern_night.Prelude.{
  ℕ, zero, suc, ◌+◌, ◌≤◌, ◌<◌, false, some, ltb, leb, ◌==◌, if◌then◌else◌, ◌≡◌, ◌≢◌, refl, arith,
  Bool-cases, inl, inr,
}
use fern_night.Prelude.Machine.{add64}
use fern_night.Kernel.Ipc.{
  Message, Messages, data_size, ipc_limit, ipc_ttl, update, load, find_free, filled,
  kernel_service_ipc_send,
}

-- The bytes after `load`.
pub load_lem :
    (to from : ℕ → ℕ) (left d x : ℕ)
    → load to from left d x ≡ (if leb d x then if ltb x (d + left) then from x else to x else to x)
unfolding load
load_lem to from zero d x = ground arith
load_lem to from (suc left) d x =
    ground (arith, load_lem (λ y. if y == d then from d else to y) from left (d + 1) x)

-- The loop ends at an entry that had expired, at the latest when every entry has.
find_free-returns :
    (fuel : ℕ) (clock : ℕ → ℕ) (table : ℕ → Message) (i n : ℕ)
    → i < ipc_limit
    → n < fuel
    → ((j : ℕ) → j < ipc_limit → (table j).ttl < clock n)
    → (e : ℕ) × (r : ℕ) × (find_free fuel clock table i ≡ some (e, clock r))
      × (e < ipc_limit)
      × (r ≤ n)
      × ((table e).ttl < clock r)
unfolding find_free
find_free-returns zero clock table i n l f all = absurd (omega arith)
find_free-returns (suc fuel) clock table i zero l f all =
    (i, 0, ground (arith, all i l), l, omega arith, all i l)
find_free-returns (suc fuel) clock table i (suc n) l f all =
    let (e, r, runs, a, b, c) =
      find_free-returns fuel (λ k. clock (suc k)) table (if leb ipc_limit (i + 1) then 0 else i + 1)
        n (ground arith) (omega arith) all in
    elim (Bool-cases (ltb (table i).ttl (clock 0))) [
      | inl h ↦ (i, 0, ground (arith, h), l, omega arith, ground (arith, h))
      | inr h ↦ (e, suc r, ground (arith, h, runs), a, omega arith, c)
    ]

-- What sending did at the entry `e` in round `r`.
pub record Sent (clock : ℕ → ℕ) (m : Messages) (sender pid : ℕ) (bytes : ℕ → ℕ) (e r : ℕ)
    (m' : Messages) : Type 0 where
  pub expired : (m.ipc_base_address e).ttl < clock r
  pub message_ttl : (m'.ipc_base_address e).ttl ≡ add64 (clock r) ipc_ttl
  pub message_source : (m'.ipc_base_address e).source ≡ sender
  pub message_target : (m'.ipc_base_address e).target ≡ pid
  pub message_data : (d : ℕ) → d < data_size → (m'.ipc_base_address e).data_bytes d ≡ bytes d
  pub others : (j : ℕ) → j ≢ e → m'.ipc_base_address j ≡ m.ipc_base_address j
  pub unlocked : m'.ipc_semaphore ≡ false

abbrev after_sending : (ℕ → ℕ) → Messages → ℕ → ℕ → (ℕ → ℕ) → ℕ → ℕ → Messages
after_sending clock m sender pid bytes e r = record {
  ipc_base_address =
      update m.ipc_base_address e (filled m.ipc_base_address e (clock r) sender pid bytes);
  ipc_semaphore = false;
}

-- If the list is not locked and by round `n` every entry expires, sending returns within `n + 1`
-- rounds. The message is in an entry that had expired in that round, so that none alive is
-- overwritten, and every other entry is as before.
pub ipc_send_returns :
    (fuel : ℕ) (clock : ℕ → ℕ) (m : Messages) (sender pid : ℕ) (bytes : ℕ → ℕ) (n : ℕ)
    → m.ipc_semaphore ≡ false
    → n < fuel
    → ((j : ℕ) → j < ipc_limit → (m.ipc_base_address j).ttl < clock n)
    → (m' : Messages) × (kernel_service_ipc_send fuel clock m sender pid bytes ≡ some m')
      × ((e : ℕ) × (r : ℕ) × (e < ipc_limit) × (r ≤ n) × Sent clock m sender pid bytes e r m')
unfolding kernel_service_ipc_send filled
ipc_send_returns fuel clock m sender pid bytes n unlocked enough all =
    let (e, r, runs, a, b, c) =
      find_free-returns fuel clock m.ipc_base_address 0 n (omega arith) enough all in
    (
      after_sending clock m sender pid bytes e r,
      ground (arith, runs),
      (
        e,
        r,
        a,
        b,
        record {
          expired = c;
          message_ttl = ground arith;
          message_source = ground arith;
          message_target = ground arith;
          message_data =
              λ d l. ground (arith, load_lem (m.ipc_base_address e).data_bytes bytes data_size 0 d);
          others = λ j h. ground arith;
          unlocked = refl;
        },
      ),
    )
