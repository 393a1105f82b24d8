-- ===== src/Library/Text/Scan.antt =====
-- The routines that look for the end of a string, and lib_string_compare, lib_string_trim and
-- lib_string_word.
use fern_night.Prelude.{
  ◌≢◌, ℕ, zero, suc, ◌+◌, ◌-◌, ◌≤◌, ◌<◌, Bool, true, false, some, ltb, leb, ◌==◌, if◌then◌else◌,
  ◌≡◌, refl, ap, ◌∙◌, arith, Bool-cases, ◌⊎◌, ◌↔◌, inl, inr,
}
use native.Mathlib.Decide.{ℕ_discrete}
use fern_night.Library.Text.{
  lib_string_length, is_character, compare_from, lib_string_compare, count_while, is_printable,
  skip_front, skip_back, move_down, lib_string_trim,
}

compare_from_sound :
    (source target : ℕ → ℕ) (left i : ℕ)
    → compare_from source target left i ≡ true
    → (x : ℕ) → i ≤ x
    → x < i + left
    → source x ≡ target x
unfolding compare_from
compare_from_sound source target zero i e x h l = absurd (omega arith)
compare_from_sound source target (suc left) i e x h l = elim (ℕ_discrete (source i) (target i)) [
  | no n ↦ absurd (ground arith)
  | yes s ↦ elim (ℕ_discrete x i) [
    | yes t ↦ rw t s
    | no n ↦
        compare_from_sound source target left (i + 1) (ground arith) x (omega arith) (omega arith)
  ]
]

compare_from_complete :
    (source target : ℕ → ℕ) (left i : ℕ)
    → ((x : ℕ) → i ≤ x → x < i + left → source x ≡ target x)
    → compare_from source target left i ≡ true
unfolding compare_from
compare_from_complete source target zero i h = refl
compare_from_complete source target (suc left) i h = ground (
  arith,
  h i (omega arith) (omega arith),
  compare_from_complete source target left (i + 1) (λ x a b. h x (omega arith) (omega arith)),
)

-- `lib_string_compare` is TRUE exactly where the first `length` characters agree.
pub string_compare-agree :
    (source target : ℕ → ℕ) (length : ℕ)
    → (lib_string_compare source target length ≡ true)
      ↔ ((x : ℕ) → x < length → source x ≡ target x)
unfolding lib_string_compare
string_compare-agree source target length = (
  (λ e x l. compare_from_sound source target length 0 e x (omega arith) (omega arith)),
  (λ h. compare_from_complete source target length 0 (λ x a b. h x (omega arith))),
)

-- A scan ends at the first character that does not pass the test.
pub count_while-first :
    (test : ℕ → Bool) (fuel : ℕ) (string : ℕ → ℕ) (i n : ℕ)
    → i ≤ n
    → n < i + fuel
    → ((x : ℕ) → i ≤ x → x < n → test (string x) ≡ true)
    → test (string n) ≡ false
    → count_while test fuel string i ≡ some n
unfolding count_while
count_while-first test zero string i n h l before e = absurd (omega arith)
count_while-first test (suc fuel) string i n h l before e = elim (ℕ_discrete i n) [
  | yes s ↦ rw s (ground (arith, e))
  | no m ↦ ground (
    arith,
    before i (omega arith) (omega arith),
    count_while-first test fuel string (i + 1) n (omega arith) (omega arith)
        (λ x a b. before x (omega arith) b) e,
  )
]

-- The length of a string, with more fuel than characters.
pub string_length_lem :
    (fuel : ℕ) (string : ℕ → ℕ) (n : ℕ)
    → n < fuel
    → ((x : ℕ) → x < n → string x ≢ 0)
    → string n ≡ 0
    → lib_string_length fuel string ≡ some n
unfolding lib_string_length
string_length_lem fuel string n h before e =
    count_while-first is_character fuel string 0 n (omega arith) (omega arith)
      (λ x a b. ground (arith, before x b)) (ground arith)

-- Both ends of a trim.
pub record Trimmed (string : ℕ → ℕ) (length i size : ℕ) : Type 0 where
  pub inside : i + size ≤ length
  pub front : (x : ℕ) → x < i → is_printable (string x) ≡ false
  pub back : (x : ℕ) → i + size ≤ x → x < length → is_printable (string x) ≡ false
  pub ends :
      (size ≡ 0)
      ⊎ ((is_printable (string i) ≡ true) × (is_printable (string (i + size - 1)) ≡ true))

skip_front-first :
    (string : ℕ → ℕ) (left i : ℕ)
    → (i ≤ skip_front string left i)
      × (skip_front string left i ≤ i + left)
      × ((x : ℕ) → i ≤ x → x < skip_front string left i → is_printable (string x) ≡ false)
      × ((skip_front string left i ≡ i + left)
          ⊎ (is_printable (string (skip_front string left i)) ≡ true))
unfolding skip_front
skip_front-first string zero i =
    (omega arith, omega arith, λ x a b. absurd (omega arith), inl (omega arith))
skip_front-first string (suc left) i =
    let (a, b, c, d) = skip_front-first string left (i + 1) in
    elim (Bool-cases (is_printable (string i))) [
      | inl e ↦ rw e (omega arith, omega arith, λ x g h. absurd (omega arith), inr e)
      | inr e ↦ rw e (
        omega arith,
        omega arith,
        λ x g h. elim (ℕ_discrete x i) [ yes s ↦ rw s e | no n ↦ c x (omega arith) h ],
        elim d [ inl s ↦ inl (omega arith) | inr s ↦ inr s ],
      )
    ]

skip_back-last :
    (string : ℕ → ℕ) (i left : ℕ)
    → (i ≤ skip_back string i left)
      × (skip_back string i left ≤ i + left)
      × ((x : ℕ) → skip_back string i left ≤ x → x < i + left → is_printable (string x) ≡ false)
      × ((skip_back string i left ≡ i)
          ⊎ (is_printable (string (skip_back string i left - 1)) ≡ true))
unfolding skip_back
skip_back-last string i zero = (omega arith, omega arith, λ x a b. absurd (omega arith), inl refl)
skip_back-last string i (suc left) =
    let (a, b, c, d) = skip_back-last string i left in
    elim (Bool-cases (is_printable (string (i + left)))) [
      | inl e ↦ rw e (
        omega arith,
        omega arith,
        λ x g h. absurd (omega arith),
        inr (ap (λ (x : ℕ). is_printable (string x)) (omega arith) ∙ e),
      )
      | inr e ↦ rw e (
        omega arith,
        omega arith,
        λ x g h. elim (ℕ_discrete x (i + left)) [ yes s ↦ rw s e | no n ↦ c x g (omega arith) ],
        d,
      )
    ]

move_down_lem :
    (string : ℕ → ℕ) (i left k x : ℕ)
    → 0 < i
    → move_down string i left k x
      ≡ (if leb k x then if ltb x (k + left) then string (x + i) else string x else string x)
unfolding move_down
move_down_lem string i zero k x h = ground arith
move_down_lem string i (suc left) k x h =
    ground
      (arith, move_down_lem (λ y. if y == k then string (k + i) else string y) i left (k + 1) x h)

add_nothing : (x i : ℕ) → i ≡ 0 → x + i ≡ x
add_nothing x i e = omega arith

-- `lib_string_trim` drops characters that are not printable from both ends and no others: what is
-- left is empty or starts and ends with a printable character. With `move` it is moved to the
-- beginning of the string, and the characters behind it stay.
pub string_trim-ends :
    (string : ℕ → ℕ) (length : ℕ)
    → (i : ℕ) × Trimmed string length i ((lib_string_trim string length true).0)
      × ((lib_string_trim string length false).0 ≡ (lib_string_trim string length true).0)
      × ((lib_string_trim string length false).1 ≡ string)
      × ((x : ℕ)
          → (lib_string_trim string length true).1 x
            ≡ (if ltb x ((lib_string_trim string length true).0) then string (x + i) else string x))
unfolding lib_string_trim
string_trim-ends string length =
    let i = skip_front string length 0 in
    let (a, b, c, d) = skip_front-first string length 0 in
    let (f, g, h, k) = skip_back-last string i (length - i) in
    (
      i,
      record {
        inside = omega arith;
        front = λ x l. c x (omega arith) l;
        back = λ x l m. h x (omega arith) (omega arith);
        ends = elim d [
          | inl s ↦ inl (omega arith)
          | inr p ↦ elim k [
            | inl s ↦ inl (omega arith)
            | inr e ↦ inr (p, ap (λ (x : ℕ). is_printable (string x)) (omega arith) ∙ e)
          ]
        ];
      },
      refl,
      refl,
      λ x. elim (ℕ_discrete i 0) [
        | yes s ↦ ground (arith, ap string (add_nothing x i s))
        | no n ↦ ground (arith, move_down_lem string i (skip_back string i (length - i) - i) 0 x)
      ],
    )
