-- ===== src/Kernel/Stream/Value/Digits.antt =====
-- What kernel_stream_out_value sends.
use fern_night.Prelude.{
  ℕ, zero, suc, ◌+◌, ◌-◌, ◌/◌, ◌%◌, ◌^◌, ◌≤◌, ◌<◌, bit_and, bit_or, true, false, [], ◌∷◌, ◌++◌,
  some, ltb, ◌==◌, if◌then◌else◌, ◌≡◌, refl, ap, ◌∙◌, ◌≢◌, arith, pow-suc,
}
use native.Mathlib.Nat.{pow-zero}
use native.Mathlib.Nat.{div-lt_iff_lt-mul, mul_comm}
use native.Mathlib.Decide.{ℕ_discrete}
use fern_night.Kernel.Memory.{store}
use fern_night.Kernel.Stream.{Stream, flag_null, flag_closed, kernel_stream_out}
use fern_night.Kernel.Stream.Loops.{listing}
use fern_night.Kernel.Stream.Ring.{IsValid, contents, accepts, stream_out_appends}
use fern_night.Kernel.Stream.Value.{buffer, ascii, digits, kernel_stream_out_value}

-- A value below `base ^ d` takes at most `d` places, from the end of the buffer down.
record Written (i d : ℕ) (string : ℕ → ℕ) (out : (ℕ → ℕ) × ℕ) : Type 0 where
  pub low : i ≤ out.1 + d
  pub high : out.1 ≤ i
  pub kept : (j : ℕ) → j + d < i → out.0 j ≡ string j

module _ (fuel value base i : ℕ) (string : ℕ → ℕ) where
  digits_end : value ≡ 0 → digits (suc fuel) value base i string ≡ (string, i)
  unfolding digits
  digits_end e = ground arith

  digits_next :
      value ≢ 0
      → 0 < i
      → i ≤ 64
      → digits (suc fuel) value base i string
        ≡ digits fuel
            (value / base)
            base
            (i - 1)
            (store string (i - 1) (ascii (value % base % 2 ^ 8)))
  unfolding digits
  digits_next n l m =
      let e : (i + 255) % 2 ^ 8 ≡ i - 1 = omega arith in
      ground (
        arith,
        ap (λ t. digits fuel (value / base) base t (store string t (ascii (value % base % 2 ^ 8))))
            e,
      )

div-lt-pow : (value base d : ℕ) → value < base ^ suc d → 0 < base → value / base < base ^ d
div-lt-pow value base d h b =
    (div-lt_iff_lt-mul b).1 (omega (arith, pow-suc base d, mul_comm base (base ^ d)))

digits-Written :
    (fuel value base d i : ℕ) (string : ℕ → ℕ)
    → value < base ^ d
    → d ≤ i
    → i ≤ 64
    → 0 < base
    → Written i d string (digits fuel value base i string)
digits-Written zero value base d i string h l m b =
    unfold digits in record { low = omega arith; high = omega arith; kept = λ j k. refl }
digits-Written (suc fuel) value base zero i string h l m b =
    rw (digits_end fuel value base i string (omega (arith, pow-zero base)))
      (record { low = omega arith; high = omega arith; kept = λ j k. refl })
digits-Written (suc fuel) value base (suc d) i string h l m b = elim (ℕ_discrete value 0) [
  | yes e ↦
      rw (digits_end fuel value base i string e)
        (record { low = omega arith; high = omega arith; kept = λ j k. refl })
  | no n ↦
      let w =
        digits-Written fuel (value / base) base d (i - 1)
          (store string (i - 1) (ascii (value % base % 2 ^ 8))) (div-lt-pow value base d h b)
          (omega arith) (omega arith) b in
      rw (digits_next fuel value base i string n (omega arith) m) (record {
        low = omega (arith, w.low);
        high = omega (arith, w.high);
        kept = λ j k. ground (arith, w.kept j);
      })
]

-- The call of `kernel_stream_out` for a value that leaves at least three free places.
value_call :
    (s : Stream) (stack : ℕ → ℕ) (value base prefix character : ℕ)
    → 2 ≤ base
    → base ≤ 36
    → 0 < value
    → prefix ≤ 1
    → 3 ≤ (digits 64 value base 64 (buffer stack character)).1
    → kernel_stream_out_value s stack value base prefix character
      ≡ kernel_stream_out s
          (λ j. (digits 64 value base 64 (buffer stack character)).0 (1 + 1 + j))
          1
unfolding kernel_stream_out_value
value_call s stack value base prefix character lo hi pos narrow far =
    let (string, i) = digits 64 value base 64 (buffer stack character) in
    let width : (if prefix == 0 then 1 else prefix) ≡ 1 = ground arith in
    let at : (if ltb (if prefix == 0 then 1 else prefix) i
          then (if prefix == 0 then 1 else prefix)
          else i)
        ≡ 1 =
      rw width (ground arith) in
    ground (arith, ap (λ (t : ℕ). kernel_stream_out s (λ j. string (t + 1 + j)) t) at)

-- With a prefix of at most 1, every value above 0 that has fewer than 62 digits in its base is
-- printed as one pad character: no digit is sent. The stream is valid, open and not full, and
-- its lock is free.
pub value_is_blank :
    (s : Stream) (stack : ℕ → ℕ) (value base prefix character : ℕ)
    → IsValid s
    → s.lock ≡ false
    → bit_and s.flags (bit_or flag_closed flag_null) ≡ 0
    → 0 < s.free
    → 2 ≤ base
    → base ≤ 36
    → 0 < value
    → value < base ^ 61
    → prefix ≤ 1
    → (s' : Stream) × (kernel_stream_out_value s stack value base prefix character ≡ some s')
      × (contents s' ≡ contents s ++ (character ∷ []))
unfolding listing
value_is_blank s stack value base prefix character v unlocked opened room lo hi pos short narrow =
    let w =
      digits-Written 64 value base 61 64 (buffer stack character) short (omega arith) (omega arith)
        (omega arith) in
    let text = λ (j : ℕ). (digits 64 value base 64 (buffer stack character)).0 (1 + 1 + j) in
    let (s', sent, _, appended) = stream_out_appends s text 1 v unlocked in
    let taken : accepts s 1 ≡ true = ground arith in
    let pad : text 0 ≡ character = w.kept 2 (omega arith) ∙ unfold buffer in refl in
    (
      s',
      value_call s stack value base prefix character lo hi pos narrow (omega (arith, w.low)) ∙ sent,
      (rw taken at appended) ∙ ap (λ (t : ℕ). contents s ++ (t ∷ [])) pad,
    )
