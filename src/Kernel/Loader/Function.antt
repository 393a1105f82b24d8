-- ===== src/Kernel/Loader/Function.antt =====
-- Which function kernel_library_function finds.
pub mod Symbols
use native.Mathlib.Decide.{ℕ_discrete}
use fern_night.Prelude.{
  ℕ, zero, suc, ◌+◌, ◌*◌, ◌/◌, ◌%◌, ◌^◌, ◌≤◌, ◌<◌, true, false, none, some, ◌==◌, ◌≡◌, ◌≢◌, ◌⊎◌,
  inl, inr, refl, ◌∙◌, Bool-cases, arith,
}
use fern_night.Prelude.Bits.{bit_at, bit_and-pow}
use fern_night.Library.Sys.Heap.Words.{load_bytes}
use fern_night.Library.Text.{lib_string_compare}
use fern_night.Library.Text.Scan.{string_length_lem, string_compare-agree}
use fern_night.Kernel.Loader.Elf.{symbol_at}
use fern_night.Kernel.Loader.{
  Library, Libraries, library_limit, is_active, symbol_name, is_function, function_in,
  function_from, kernel_library_function,
}
use Symbols.{IsActive, set-IsActive, unset-IsActive, AreNamed, OfNone, IsFirst, function_in-IsFirst}

-- No active library from `i` to in front of `until` has a symbol with the name.
abbrev pub NoneOf : (ℕ → ℕ) → Libraries → (ℕ → ℕ) → ℕ → ℕ → ℕ → Type 0
NoneOf ram libraries name n i until =
    (k : ℕ)
    → i ≤ k
    → k < until
    → IsActive (libraries k)
    → OfNone ram (libraries k) name n 0 ((libraries k).dynsym_limit / 24)

-- `a` is the address of the function in the first active library that has it.
pub record Resolves (ram : ℕ → ℕ) (libraries : Libraries) (name : ℕ → ℕ) (n i a : ℕ) : Type 0 where
  pub library : ℕ
  pub from : i ≤ library
  pub inside : library < library_limit
  pub active : IsActive (libraries library)
  pub first : IsFirst ram (libraries library) name n 0 ((libraries library).dynsym_limit / 24) a
  pub before : NoneOf ram libraries name n i library

module _ (fuel : ℕ) (ram : ℕ → ℕ) (libraries : Libraries) (name : ℕ → ℕ) (n : ℕ)
    (named : (k : ℕ) → IsActive (libraries k) → AreNamed fuel ram (libraries k)) where
  -- An entry that is not active or has no such symbol is passed over.
  passed :
      (i until : ℕ)
      → (IsActive (libraries i)
          → OfNone ram (libraries i) name n 0 ((libraries i).dynsym_limit / 24))
      → NoneOf ram libraries name n (i + 1) until
      → NoneOf ram libraries name n i until
  passed i until h more k a b active = elim (ℕ_discrete k i) [
    | yes e ↦ rw e (h (rw e at active))
    | no ne ↦ more k (ground arith) b active
  ]

  function_from-Resolves :
      (left i : ℕ)
      → i + left ≡ library_limit
      → ((function_from fuel ram libraries name n left i ≡ some none)
          × NoneOf ram libraries name n i library_limit)
        ⊎ ((a : ℕ) × (function_from fuel ram libraries name n left i ≡ some (some a))
            × Resolves ram libraries name n i a)
  unfolding function_from
  function_from-Resolves zero i e = inl (refl, λ k a b. absurd (omega (arith, e)))
  function_from-Resolves (suc left) i e =
      let l = libraries i in
      let rest = function_from-Resolves left (i + 1) (omega (arith, e)) in
      let later : (IsActive l → OfNone ram l name n 0 (l.dynsym_limit / 24))
          → function_from fuel ram libraries name n (suc left) i
            ≡ function_from fuel ram libraries name n left (i + 1)
          → ((function_from fuel ram libraries name n (suc left) i ≡ some none)
              × NoneOf ram libraries name n i library_limit)
            ⊎ ((a : ℕ) × (function_from fuel ram libraries name n (suc left) i ≡ some (some a))
                × Resolves ram libraries name n i a) =
        λ none_here same. elim rest [
          | inl (g, none_later) ↦ inl (same ∙ g, passed i library_limit none_here none_later)
          | inr (a, g, r) ↦ inr (
            a,
            same ∙ g,
            record {
              library = r.library;
              from = omega (arith, r.from);
              inside = r.inside;
              active = r.active;
              first = r.first;
              before = passed i r.library none_here r.before;
            },
          )
        ] in
      elim (Bool-cases (is_active l)) [
        | inr f ↦ later (λ t. absurd (unset-IsActive l f t)) (rw (function_from, f) refl)
        | inl f ↦
            elim (function_in-IsFirst fuel ram name n l (l.dynsym_limit / 24) 0
              (l.dynsym_limit / 24) (omega arith) (omega arith) (named i (set-IsActive l f))) [
                | inl (g, here) ↦ later (λ t. here) (rw (function_from, f, g) refl)
                | inr (a, g, first) ↦ inr (
                  a,
                  rw (function_from, f, g) refl,
                  record {
                    library = i;
                    from = omega arith;
                    inside = omega (arith, e);
                    active = set-IsActive l f;
                    first = first;
                    before = λ k b c. absurd (omega arith);
                  },
                )
              ]
      ]

  -- Let every symbol of the active libraries have a name, of less characters than the fuel. Then
  -- kernel_library_function returns. Either the answer is the address of a function with exactly the
  -- name: the value of the first such symbol in the first active library that has one, moved to the
  -- place of that library, in 64 bits; or the answer is EMPTY, and no active library has a symbol
  -- with the name.
  pub library_function-Resolves :
      (a : ℕ) × (kernel_library_function fuel ram libraries name n ≡ some a)
      × (Resolves ram libraries name n 0 a
          ⊎ ((a ≡ 0) × NoneOf ram libraries name n 0 library_limit))
  unfolding kernel_library_function
  library_function-Resolves = elim (function_from-Resolves library_limit 0 (omega arith)) [
    | inl (e, h) ↦ (0, rw (kernel_library_function, e) refl, inr (refl, h))
    | inr (a, e, r) ↦ (a, rw (kernel_library_function, e) refl, inl r)
  ]
