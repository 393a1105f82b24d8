-- ===== src/Kernel/Loader/Tests.antt =====
-- The theorems on loading, at a library with two symbols and at a command of 20 bytes.
use fern_night.Prelude.{
  ℕ, zero, suc, ◌+◌, ◌-◌, ◌%◌, ◌≤◌, ◌<◌, ◌≡◌, ◌⊎◌, inr, refl, some, ◌==◌, if◌then◌else◌, arith,
}
use fern_night.Library.Sys.Heap.Words.{load_bytes, load64}
use fern_night.Kernel.Loader.{Library, Libraries, library_limit, kernel_library_function}
use fern_night.Kernel.Loader.Function.{NoneOf, Resolves, library_function-Resolves}
use fern_night.Kernel.Loader.Function.Symbols.{IsActive, AreNamed}
use fern_night.Kernel.Loader.Segments.{stack_of, stack_mapping, stack_pointer, put_arguments}
use fern_night.Kernel.Loader.Segments.Placed.{put_arguments_lem}

put_arguments_lem_example :
    let at = 0x9000 + (stack_of 20 - (stack_mapping 20).0) in
    let out = put_arguments (λ i. i % 256) 0x9000 0x100 20 in
    ((stack_mapping 20).1 ≡ 1)
    × ((stack_mapping 20).0 + 4096 ≡ stack_pointer)
    × (stack_of 20 % 16 ≡ 8)
    × (load64 out at ≡ 20)
    × ((k : ℕ) → k < 20 → out (at + 8 + k) ≡ (0x100 + k) % 256)
    × ((x : ℕ) → (x < 0x9000) ⊎ (0x9000 + 4096 ≤ x) → out x ≡ x % 256)
put_arguments_lem_example =
    put_arguments_lem (λ i. i % 256) 0x9000 0x100 20 (omega arith) (inr (omega arith))

abbrev no_library : Library
no_library = record {
  address = 0;
  dynsym = 0;
  dynsym_limit = 0;
  strtab = 0;
  size_page = 0;
  flags = 0;
  length = 0;
  name = λ n. 0;
}

abbrev one_library : Library
one_library = record {
  address = 0x1000;
  dynsym = 0x2000;
  dynsym_limit = 48;
  strtab = 0x3000;
  size_page = 1;
  flags = 2;
  length = 0;
  name = λ n. 0;
}

abbrev libraries : Libraries
libraries zero = no_library
libraries (suc zero) = one_library
libraries (suc (suc i)) = no_library

-- The symbol at 0x2018 has the name at 0x3001, of one character, and the address 0x40.
abbrev memory : ℕ → ℕ
memory x = if x == 0x2018 then 1 else if x == 0x2020 then 0x40 else if x == 0x3001 then 0x66 else 0

abbrev name : ℕ → ℕ
name k = 0x66

one_library-AreNamed : AreNamed 4 memory one_library
unfolding load_bytes
one_library-AreNamed zero h =
    (0, omega arith, record { characters = λ k b. absurd (omega arith); terminator = refl })
one_library-AreNamed (suc zero) h = (
  1,
  omega arith,
  record {
    characters = λ k b. let e : k ≡ 0 = omega arith in rw e (λ z. absurd (omega (arith, z)));
    terminator = refl;
  },
)
one_library-AreNamed (suc (suc j)) h = absurd (omega (arith, h))

libraries-AreNamed : (k : ℕ) → IsActive (libraries k) → AreNamed 4 memory (libraries k)
libraries-AreNamed zero a = absurd (omega (arith, a))
libraries-AreNamed (suc zero) a = one_library-AreNamed
libraries-AreNamed (suc (suc k)) a = absurd (omega (arith, a))

library_function-Resolves_example :
    (a : ℕ) × (kernel_library_function 4 memory libraries name 1 ≡ some a)
    × (Resolves memory libraries name 1 0 a
        ⊎ ((a ≡ 0) × NoneOf memory libraries name 1 0 library_limit))
library_function-Resolves_example =
    library_function-Resolves 4 memory libraries name 1 libraries-AreNamed
