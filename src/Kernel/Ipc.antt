-- ===== src/Kernel/Ipc.antt =====
-- kernel_service_ipc_send and kernel_service_ipc_receive of kernel/service.c.
pub mod Send
pub mod Receive
pub mod Tests
use fern_night.Prelude.{
  ℕ, zero, suc, ◌+◌, ◌^◌, Bool, true, false, ◌&&◌, ◌||◌, Option, none, some, ltb, leb, ◌==◌,
  if◌then◌else◌,
}
use fern_night.Prelude.Machine.{add64}

-- `struct STD_IPC_STRUCTURE`. Byte 0 of the data is the type.
pub record Message : Type 0 where
  pub ttl : ℕ
  pub source : ℕ
  pub target : ℕ
  pub data_bytes : ℕ → ℕ

-- `STD_IPC_SIZE_byte`, `KERNEL_IPC_limit`, `KERNEL_IPC_ttl`
abbrev pub data_size : ℕ
data_size = 40

abbrev pub ipc_limit : ℕ
ipc_limit = 512

abbrev pub ipc_ttl : ℕ
ipc_ttl = 100

pub record Messages : Type 0 where
  pub ipc_base_address : ℕ → Message
  pub ipc_semaphore : Bool

abbrev pub update : (ℕ → Message) → ℕ → Message → ℕ → Message
update table i message j = if j == i then message else table j

-- `data[ d ] = data[ d ]` for the `left` bytes from `d` on.
pub load : (ℕ → ℕ) → (ℕ → ℕ) → ℕ → ℕ → ℕ → ℕ
load to from zero d = to
load to from (suc left) d = load (λ x. if x == d then from d else to x) from left (d + 1)

-- "find free entry": round `n` of the loop reads the clock `clock n`; on fuel. The result is the
-- entry and the time.
pub find_free : ℕ → (ℕ → ℕ) → (ℕ → Message) → ℕ → Option (ℕ × ℕ)
find_free zero clock table i = none
find_free (suc fuel) clock table i =
    let rest =
      find_free fuel (λ n. clock (suc n)) table (if leb ipc_limit (i + 1) then 0 else i + 1) in
    if ltb (table i).ttl (clock 0) then some (i, clock 0) else rest

-- The entry that `sender` fills.
pub filled : (ℕ → Message) → ℕ → ℕ → ℕ → ℕ → (ℕ → ℕ) → Message
filled table i time sender pid bytes = record {
  ttl = add64 time ipc_ttl;
  source = sender;
  target = pid;
  data_bytes = load (table i).data_bytes bytes data_size 0;
}

-- `none`: the semaphore is held, or no entry is free within `fuel` rounds.
pub kernel_service_ipc_send : ℕ → (ℕ → ℕ) → Messages → ℕ → ℕ → (ℕ → ℕ) → Option Messages
kernel_service_ipc_send fuel clock m sender pid bytes =
    if m.ipc_semaphore then none else elim (find_free fuel clock m.ipc_base_address 0) [
      | none ↦ none
      | some (i, time) ↦ some (record {
        ipc_base_address =
            update m.ipc_base_address i (filled m.ipc_base_address i time sender pid bytes);
        ipc_semaphore = false;
      })
    ]

-- "message available?", "requested message type?", "message destined for the process"
pub is_for : ℕ → ℕ → ℕ → Message → Bool
is_for now kind target message =
    ltb now message.ttl
    && (((kind == 0) || (message.data_bytes 0 == kind)) && (message.target == target))

-- The first of `left` entries from `i` on with a message for the process.
pub find_message : ℕ → ℕ → ℕ → (ℕ → Message) → ℕ → ℕ → Option ℕ
find_message now kind target table zero i = none
find_message now kind target table (suc left) i =
    let later = find_message now kind target table left (i + 1) in
    if is_for now kind target (table i) then some i else later

-- The message that was copied to the process, if there is one (flag TRUE). The outer `none`: the
-- loop on the semaphore spins.
pub kernel_service_ipc_receive : ℕ → Messages → ℕ → ℕ → Option (Option Message × Messages)
kernel_service_ipc_receive now m target kind =
    let table = m.ipc_base_address in
    if m.ipc_semaphore then none else elim (find_message now kind target table ipc_limit 0) [
      | none ↦ some (none, record m { ipc_semaphore = false })
      | some i ↦ some (
        some (table i),
        record {
          ipc_base_address = update table i (record (table i) { ttl = 0 });
          ipc_semaphore = false;
        },
      )
    ]
