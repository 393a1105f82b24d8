-- ===== src/Kernel/Loader/Function/Symbols.antt =====
-- Which symbols of a library have a name, and which one of them function_in finds.
use native.Mathlib.Decide.{ℕ_discrete}
use fern_night.Prelude.{
  ℕ, zero, suc, ◌+◌, ◌*◌, ◌/◌, ◌%◌, ◌^◌, ◌≤◌, ◌<◌, true, false, none, some, ◌==◌, ◌≡◌, ◌≢◌, ◌⊎◌,
  inl, inr, refl, Bool-cases, arith,
}
use fern_night.Prelude.Bits.{bit_at, bit_and-pow}
use fern_night.Library.Sys.Heap.Words.{load_bytes}
use fern_night.Library.Text.{lib_string_compare}
use fern_night.Library.Text.Scan.{string_length_lem, string_compare-agree}
use fern_night.Kernel.Loader.Elf.{symbol_at}
use fern_night.Kernel.Loader.{Library, is_active, symbol_name, is_function, function_in}

-- A string of `n` characters, with its terminator.
pub record IsString (string : ℕ → ℕ) (n : ℕ) : Type 0 where
  pub characters : (k : ℕ) → k < n → string k ≢ 0
  pub terminator : string n ≡ 0

-- What the memory has at the name of the symbol `j` of a library: its offset is the first word, of 32
-- bits, of the record of 24 bytes in the table of symbols.
abbrev pub name_of : (ℕ → ℕ) → Library → ℕ → ℕ → ℕ
name_of ram l j k = ram (l.strtab + load_bytes 4 ram (l.dynsym + j * 24) + k)

-- The flag of the value 2 is set.
abbrev pub IsActive : Library → Type 0
IsActive l = l.flags / 2 % 2 ≡ 1

pub set-IsActive : (l : Library) → is_active l ≡ true → IsActive l
unfolding bit_at
set-IsActive l e = ground (arith, bit_and-pow l.flags 1)

pub unset-IsActive : (l : Library) → is_active l ≡ false → ¬ IsActive l
unfolding bit_at
unset-IsActive l e = ground (arith, bit_and-pow l.flags 1)

-- The symbol `j` of a library has the name `name` of `n` characters.
pub record Offers (ram : ℕ → ℕ) (l : Library) (j : ℕ) (name : ℕ → ℕ) (n : ℕ) : Type 0 where
  pub whole : IsString (name_of ram l j) n
  pub same : (k : ℕ) → k < n → name_of ram l j k ≡ name k

-- All symbols of a library have names of less than `fuel` characters.
abbrev pub AreNamed : ℕ → (ℕ → ℕ) → Library → Type 0
AreNamed fuel ram l =
    (j : ℕ) → j < l.dynsym_limit / 24 → (m : ℕ) × (m < fuel) × IsString (name_of ram l j) m

-- A string has one length.
IsString-unique : (string : ℕ → ℕ) (m n : ℕ) → IsString string m → IsString string n → m ≡ n
IsString-unique string m n a b =
    ground (arith, a.characters n, b.characters m, a.terminator, b.terminator)

-- The test of one symbol.
is_function-Offers :
    (fuel : ℕ) (ram name : ℕ → ℕ) (n : ℕ) (l : Library) (j m : ℕ)
    → m < fuel
    → IsString (name_of ram l j) m
    → ((is_function fuel ram name n l j ≡ some true) × Offers ram l j name n)
      ⊎ ((is_function fuel ram name n l j ≡ some false) × ¬ Offers ram l j name n)
unfolding is_function symbol_name symbol_at
is_function-Offers fuel ram name n l j m h s =
    let e = string_length_lem fuel (name_of ram l j) m h s.characters s.terminator in
    let (sound, complete) = string_compare-agree name (name_of ram l j) n in
    elim (ℕ_discrete m n) [
      | no ne ↦
          let f : (m == n) ≡ false = ground arith in
          inr (rw (e, f) refl, λ o. ne (IsString-unique (name_of ram l j) m n s o.whole))
      | yes eq ↦ elim (Bool-cases (lib_string_compare name (name_of ram l j) n)) [
        | inl c ↦
            let f : (m == n) ≡ true = ground arith in
            inl (
              rw (e, f, c) refl,
              record { whole = rw eq at s; same = λ k b. ground (arith, sound c k b) },
            )
        | inr c ↦
            let f : (m == n) ≡ true = ground arith in
            inr (
              rw (e, f, c) refl,
              λ o. let t = complete (λ k b. ground (arith, o.same k b)) in ground arith,
            )
      ]
    ]

-- No symbol of the library from `j` to in front of `until` has the name.
abbrev pub OfNone : (ℕ → ℕ) → Library → (ℕ → ℕ) → ℕ → ℕ → ℕ → Type 0
OfNone ram l name n j until = (k : ℕ) → j ≤ k → k < until → ¬ Offers ram l k name n

-- `a` is the address of the first symbol with the name, from `j` to in front of `until`: the value of the
-- symbol, the 64 bits at 8 of its record, moved to the place of the library.
pub record IsFirst (ram : ℕ → ℕ) (l : Library) (name : ℕ → ℕ) (n j until a : ℕ) : Type 0 where
  pub symbol : ℕ
  pub from : j ≤ symbol
  pub inside : symbol < until
  pub offers : Offers ram l symbol name n
  pub at : a ≡ (l.address + load_bytes 8 ram (l.dynsym + symbol * 24 + 8)) % 2 ^ 64
  pub before : OfNone ram l name n j symbol

none_more :
    (ram : ℕ → ℕ) (l : Library) (name : ℕ → ℕ) (n j until : ℕ)
    → ¬ Offers ram l j name n
    → OfNone ram l name n (j + 1) until
    → OfNone ram l name n j until
none_more ram l name n j until h more k a b o = elim (ℕ_discrete k j) [
  | yes e ↦ h (rw e at o)
  | no ne ↦ more k (ground arith) b o
]

-- The search in one library.
pub function_in-IsFirst :
    (fuel : ℕ) (ram name : ℕ → ℕ) (n : ℕ) (l : Library) (left j until : ℕ)
    → j + left ≡ until
    → until ≤ l.dynsym_limit / 24
    → AreNamed fuel ram l
    → ((function_in fuel ram name n l left j ≡ some none) × OfNone ram l name n j until)
      ⊎ ((a : ℕ) × (function_in fuel ram name n l left j ≡ some (some a))
          × IsFirst ram l name n j until a)
unfolding function_in symbol_at
function_in-IsFirst fuel ram name n l zero j until e most named =
    inl (refl, λ k a b. absurd (omega (arith, e)))
function_in-IsFirst fuel ram name n l (suc left) j until e most named =
    let (m, h, s) = named j (omega (arith, e)) in
    elim (is_function-Offers fuel ram name n l j m h s) [
      | inl (f, o) ↦ inr (
        _,
        rw (function_in, f) refl,
        record {
          symbol = j;
          from = omega arith;
          inside = omega (arith, e);
          offers = o;
          at = refl;
          before = λ k a b. absurd (omega arith);
        },
      )
      | inr (f, o) ↦
          elim (function_in-IsFirst fuel ram name n l left (j + 1) until (omega (arith, e)) most
            named) [
              | inl (g, none_later) ↦
                  inl (rw (function_in, f, g) refl, none_more ram l name n j until o none_later)
              | inr (a, g, first) ↦ inr (
                a,
                rw (function_in, f, g) refl,
                record {
                  symbol = first.symbol;
                  from = omega (arith, first.from);
                  inside = first.inside;
                  offers = first.offers;
                  at = first.at;
                  before = none_more ram l name n j first.symbol o first.before;
                },
              )
            ]
    ]
