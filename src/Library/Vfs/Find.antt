-- ===== src/Library/Vfs/Find.antt =====
-- lib_vfs_file and lib_vfs_init on a package of `n` files.
use fern_night.Prelude.{
  ℕ, zero, suc, ◌+◌, ◌≤◌, ◌<◌, true, false, Option, none, some, ◌≡◌, ◌≢◌, inl, inr, ap, ◌∙◌, arith,
  Bool-cases,
}
use native.Mathlib.Decide.{ℕ_discrete}
use fern_night.Library.Vfs.{File, is_file, find_from, lib_vfs_file}

-- A package: `n` files from the record `i` on, and its end.
pub record IsPackage (vfs : ℕ → File) (i n : ℕ) : Type 0 where
  pub files : (j : ℕ) → i ≤ j → j < i + n → (vfs j).length ≢ 0
  pub last : (vfs (i + n)).length ≡ 0

IsPackage-rest : (vfs : ℕ → File) (i n : ℕ) → IsPackage vfs i (suc n) → IsPackage vfs (i + 1) n
IsPackage-rest vfs i n p = record {
  files = λ j a b. p.files j (omega arith) (omega arith);
  last = ap (λ (j : ℕ). (vfs j).length) (omega arith) ∙ p.last;
}

-- What a search from the record `i` on says: the first file with the name, or that there is none.
pub First : (ℕ → File) → (ℕ → ℕ) → ℕ → ℕ → ℕ → Option ℕ → Type 0
First vfs name length i n none = (j : ℕ) → i ≤ j → j < i + n → is_file name length (vfs j) ≡ false
First vfs name length i n (some e) =
    (i ≤ e)
    × (e < i + n)
    × (is_file name length (vfs e) ≡ true)
    × ((j : ℕ) → i ≤ j → j < e → is_file name length (vfs j) ≡ false)

-- The end of a package is no file, as a name is not empty.
end_no_file :
    (file : File) (name : ℕ → ℕ) (length : ℕ)
    → length ≢ 0
    → file.length ≡ 0
    → is_file name length file ≡ false
end_no_file file name length h e = ground arith

First-later :
    (vfs : ℕ → File) (name : ℕ → ℕ) (length i n : ℕ) (o : Option ℕ)
    → First vfs name length (i + 1) n o
    → is_file name length (vfs i) ≡ false
    → First vfs name length i (suc n) o
unfolding First
First-later vfs name length i n none h e = λ j l g. elim (ℕ_discrete j i) [
  | yes s ↦ ap (λ (k : ℕ). is_file name length (vfs k)) s ∙ e
  | no m ↦ h j (omega arith) (omega arith)
]
First-later vfs name length i n (some v) (a, b, c, d) e = (
  omega arith,
  omega arith,
  c,
  λ j l g. elim (ℕ_discrete j i) [
    | yes s ↦ ap (λ (k : ℕ). is_file name length (vfs k)) s ∙ e
    | no m ↦ d j (omega arith) g
  ],
)

find_from-First :
    (fuel : ℕ) (vfs : ℕ → File) (name : ℕ → ℕ) (length i n : ℕ)
    → n < fuel
    → IsPackage vfs i n
    → length ≢ 0
    → (o : Option ℕ) × (find_from fuel vfs name length i ≡ some o) × First vfs name length i n o
unfolding find_from First
find_from-First zero vfs name length i n h p l = absurd (omega arith)
find_from-First (suc fuel) vfs name length i zero h p l =
    let end : (vfs i).length ≡ 0 = ap (λ (j : ℕ). (vfs j).length) (omega arith) ∙ p.last in
    (
      none,
      ground (arith, end_no_file (vfs i) name length l end, end),
      λ j a b. absurd (omega arith),
    )
find_from-First (suc fuel) vfs name length i (suc n) h p l =
    let (o, runs, found) =
      find_from-First fuel vfs name length (i + 1) n (omega arith) (IsPackage-rest vfs i n p) l in
    elim (Bool-cases (is_file name length (vfs i))) [
      | inl e ↦
          (some i, ground (arith, e), (omega arith, omega arith, e, λ j a b. absurd (omega arith)))
      | inr e ↦ (
        o,
        ground (arith, e, runs, p.files i (omega arith) (omega arith)),
        First-later vfs name length i n o found e,
      )
    ]

-- In a package of `n` files, `lib_vfs_file` with a name that is not empty returns, and gives the
-- first file with that length and name, or nothing where there is none.
pub vfs_file-First :
    (fuel : ℕ) (vfs : ℕ → File) (name : ℕ → ℕ) (length n : ℕ)
    → n < fuel
    → IsPackage vfs 0 n
    → length ≢ 0
    → (o : Option ℕ) × (lib_vfs_file fuel vfs name length ≡ some o) × First vfs name length 0 n o
unfolding lib_vfs_file
vfs_file-First fuel vfs name length n h p l = find_from-First fuel vfs name length 0 n h p l
