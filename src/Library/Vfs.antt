-- ===== src/Library/Vfs.antt =====
-- library/vfs.c and kernel/storage.c: the files of a package in memory, and the storage that holds it.
pub mod Find
use fern_night.Prelude.{
  ℕ, zero, suc, ◌+◌, ◌-◌, ◌*◌, ◌/◌, ◌^◌, Bool, true, false, ◌&&◌, Option, none, some, ◌==◌,
  if◌then◌else◌,
}
use fern_night.Prelude.Machine.{add64, sub64}
use fern_night.Library.Text.{lib_string_compare}

-- `struct LIB_VFS_STRUCTURE`; the package is an array of them, and its end has `length` 0.
pub record File : Type 0 where
  pub offset : ℕ
  pub size : ℕ
  pub length : ℕ
  pub name : ℕ → ℕ

abbrev pub vfs_magic : ℕ
vfs_magic = 0x53465623

-- `memory` has the 32-bit words from `address` on.
pub lib_vfs_check : (ℕ → ℕ) → ℕ → Bool
lib_vfs_check memory size_byte = memory (sub64 (size_byte / 4) 1) == vfs_magic

abbrev pub is_file : (ℕ → ℕ) → ℕ → File → Bool
is_file name length file = (file.length == length) && lib_string_compare name file.name length

-- `do if( ... ) return ... while( vfs++ -> length );` from the record `i` on; on fuel. The inner
-- result is the record (`id` is its address), or none: the file is not found.
pub find_from : ℕ → (ℕ → File) → (ℕ → ℕ) → ℕ → ℕ → Option (Option ℕ)
find_from zero vfs name length i = none
find_from (suc fuel) vfs name length i =
    let rest = find_from fuel vfs name length (i + 1) in
    if is_file name length (vfs i)
    then some (some i)
    else if (vfs i).length == 0
    then some none
    else rest

pub lib_vfs_file : ℕ → (ℕ → File) → (ℕ → ℕ) → ℕ → Option (Option ℕ)
lib_vfs_file fuel vfs name length = find_from fuel vfs name length 0

-- `while( vfs -> length )`, from the record `i` on; `base` is the address of the package.
pub init_from : ℕ → ℕ → (ℕ → File) → ℕ → Option (ℕ → File)
init_from zero base vfs i = none
init_from (suc fuel) base vfs i =
    let moved = record (vfs i) { offset = add64 (vfs i).offset base } in
    let rest = init_from fuel base (λ j. if j == i then moved else vfs j) (i + 1) in
    if (vfs i).length == 0 then some vfs else rest

pub lib_vfs_init : ℕ → ℕ → (ℕ → File) → Option (ℕ → File)
lib_vfs_init fuel base vfs = init_from fuel base vfs 0

-- `target[ i ] = source[ i ]` for `left` bytes from `i` on; the addresses may overlap.
pub copy_bytes : (ℕ → ℕ) → ℕ → ℕ → ℕ → ℕ → ℕ → ℕ
copy_bytes memory source target zero i = memory
copy_bytes memory source target (suc left) i =
    copy_bytes (λ x. if x == add64 target i then memory (add64 source i) else memory x) source
      target left (i + 1)

pub lib_vfs_read : (ℕ → ℕ) → File → ℕ → ℕ → ℕ
lib_vfs_read memory knot destination = copy_bytes memory knot.offset destination knot.size 0

-- `struct KERNEL_STORAGE_STRUCTURE`: `KERNEL_STORAGE_limit` is 1.
pub record Storage : Type 0 where
  pub device_type : ℕ
  pub device_first_block : ℕ → File
  pub storage_semaphore : Bool

abbrev pub type_memory : ℕ
type_memory = 1

-- The entry that was registered, if it was free. The outer `none`: the loop on the semaphore spins.
pub kernel_storage_register : Storage → ℕ → Option (Bool × Storage)
kernel_storage_register s kind =
    if s.storage_semaphore
    then none
    else if s.device_type == 0
    then some (true, record s { device_type = kind; storage_semaphore = false })
    else some (false, record s { storage_semaphore = false })

pub kernel_storage_file : ℕ → Storage → (ℕ → ℕ) → ℕ → Option (Option ℕ)
kernel_storage_file fuel s path length =
    if s.device_type == type_memory
    then lib_vfs_file fuel s.device_first_block path length
    else some none

pub kernel_storage_read : (ℕ → ℕ) → Storage → ℕ → ℕ → ℕ → ℕ
kernel_storage_read memory s id destination =
    if s.device_type == type_memory
    then lib_vfs_read memory (s.device_first_block id) destination
    else memory
