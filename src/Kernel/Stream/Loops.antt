-- ===== src/Kernel/Stream/Loops.antt =====
-- The copying loops of kernel_stream_out and kernel_stream_in, in closed form.
use fern_night.Prelude.{
  ℕ, zero, suc, ◌+◌, ◌-◌, ◌^◌, ◌≤◌, ◌<◌, List, [], ◌∷◌, ◌++◌, ltb, if◌then◌else◌, ◌≡◌, refl, ap,
  ap₂, sym, ◌∙◌, arith, length, min, Bool-cases, inl, inr,
}
use fern_night.Kernel.Memory.{store}
use fern_night.Kernel.Memory.Map.{in_run}
use fern_night.Kernel.Stream.{
  Cursor, stream_size, inc16, fill_to_end, fill_rest, drain_to_end, drain,
}

-- `n` values of `f` from `i` on.
unfoldable pub listing : (ℕ → ℕ) → ℕ → ℕ → List ℕ
listing f i zero = []
listing f i (suc n) = f i ∷ listing f (i + 1) n

pub length-listing : (f : ℕ → ℕ) (i n : ℕ) → length (listing f i n) ≡ n
unfolding listing
length-listing f i zero = refl
length-listing f i (suc n) = ap suc (length-listing f (i + 1) n)

pub listing-append :
    (f : ℕ → ℕ) (i n m : ℕ) → listing f i (n + m) ≡ listing f i n ++ listing f (i + n) m
unfolding listing
listing-append f i zero m =
    let a : 0 + m ≡ m = omega arith in let b : i + 0 ≡ i = omega arith in rw (a, b)
listing-append f i (suc n) m =
    let a : suc n + m ≡ suc (n + m) = omega arith in
    let b : i + suc n ≡ i + 1 + n = omega arith in
    rw (a, b) (ap (λ t. f i ∷ t) (listing-append f (i + 1) n m))

-- Two listings are equal when their values are, at a distance.
pub listing_ext :
    (f g : ℕ → ℕ) (n a b : ℕ)
    → ((i : ℕ) → i < n → f (a + i) ≡ g (b + i))
    → listing f a n ≡ listing g b n
unfolding listing
listing_ext f g zero a b h = refl
listing_ext f g (suc n) a b h = ap₂ ◌∷◌ (ground (arith, h 0, ap f (a0 a), ap g (a0 b))) (
    listing_ext f g n (a + 1) (b + 1)
      (λ i l. ap f (a1 a i) ∙ h (suc i) (omega arith) ∙ sym (ap g (a1 b i))))
  where
    a0 : (x : ℕ) → x + 0 ≡ x
    a0 x = omega arith

    a1 : (x i : ℕ) → x + 1 + i ≡ x + suc i
    a1 x i = omega arith

-- What a loop wrote: `n` bytes of the string from `sent` on, at `end` and after.
pub record Filled (string : ℕ → ℕ) (n sent : ℕ) (bytes : ℕ → ℕ) (end left : ℕ) (c : Cursor)
    : Type 0 where
  pub at : c.end ≡ end + n
  pub sent_to : c.sent ≡ sent + n
  pub left_over : c.left ≡ left
  pub stored : (j : ℕ) → c.bytes j ≡ (if in_run end n j then string (sent + (j - end)) else bytes j)

module _ (string : ℕ → ℕ) where
  later_byte :
      (sent end j : ℕ) → end < j → string (sent + 1 + (j - (end + 1))) ≡ string (sent + (j - end))
  later_byte sent end j h = ap string (omega arith)

  first_byte : (sent end j : ℕ) → j ≡ end → string (sent + (j - end)) ≡ string sent
  first_byte sent end j h = ap string (omega arith)

  -- One byte more, at the front.
  Filled-suc :
      {n sent : ℕ} {bytes : ℕ → ℕ} {end left : ℕ} {c : Cursor}
      → end + 1 < 2 ^ 16
      → Filled string n (sent + 1) (store bytes end (string sent)) (inc16 end) left c
      → Filled string (suc n) sent bytes end left c
  Filled-suc {n} {sent} {bytes} {end} {left} {c} small f = record {
    at = omega (arith, f.at);
    sent_to = omega (arith, f.sent_to);
    left_over = f.left_over;
    stored = λ j. ground (
      arith,
      f.stored j,
      later_byte sent end j,
      first_byte sent end j,
      ap (λ (t : ℕ). string (sent + 1 + (j - t))) inc,
    );
  }
    where
      inc : inc16 end ≡ end + 1
      inc = omega arith

pub fill_rest-Filled :
    (string : ℕ → ℕ) (left sent : ℕ) (bytes : ℕ → ℕ) (end : ℕ)
    → end + left < 2 ^ 16
    → Filled string left sent bytes end 0 (fill_rest string left sent bytes end)
unfolding fill_rest
fill_rest-Filled string zero sent bytes end h = record {
  at = omega arith;
  sent_to = omega arith;
  left_over = refl;
  stored = λ j. ground arith;
}
fill_rest-Filled string (suc left) sent bytes end h = Filled-suc string (omega arith) (
    fill_rest-Filled string left (sent + 1) (store bytes end (string sent)) (inc16 end)
      (omega arith))

pub fill_to_end-Filled :
    (string : ℕ → ℕ) (left sent : ℕ) (bytes : ℕ → ℕ) (end : ℕ)
    → end ≤ stream_size
    → Filled string
        (min left (stream_size - end))
        sent
        bytes
        end
        (left - (stream_size - end))
        (fill_to_end string left sent bytes end)
unfolding fill_to_end
fill_to_end-Filled string zero sent bytes end h = record {
  at = omega arith;
  sent_to = omega arith;
  left_over = omega arith;
  stored = λ j. ground arith;
}
fill_to_end-Filled string (suc left) sent bytes end h = elim (Bool-cases (ltb end stream_size)) [
  | inr e ↦
      rw (e, fill_to_end)
        (record {
          at = ground arith;
          sent_to = ground arith;
          left_over = ground arith;
          stored = λ j. ground arith;
        })
  | inl e ↦
      let room : end < stream_size = ground arith in
      let count : min (suc left) (stream_size - end) ≡ suc (min left (stream_size - inc16 end)) =
        omega arith in
      let over : suc left - (stream_size - end) ≡ left - (stream_size - inc16 end) = omega arith in
      rw (e, fill_to_end, count, over)
        (Filled-suc string (omega arith) (
          fill_to_end-Filled string left (sent + 1) (store bytes end (string sent)) (inc16 end)
            (omega arith)))
]

pub drain_to_end-listing :
    (bytes : ℕ → ℕ) (n start : ℕ) → drain_to_end bytes n start ≡ listing bytes start n
unfolding drain_to_end listing
drain_to_end-listing bytes zero start = refl
drain_to_end-listing bytes (suc n) start =
    ap (λ t. bytes start ∷ t) (drain_to_end-listing bytes n (start + 1))

pub drain-listing :
    (fuel : ℕ) (bytes : ℕ → ℕ) (n start : ℕ)
    → n < fuel
    → start + n < 2 ^ 16
    → drain fuel bytes (start + n) start ≡ listing bytes start n
unfolding drain listing
drain-listing zero bytes n start h l = absurd (omega arith)
drain-listing (suc fuel) bytes zero start h l = ground arith
drain-listing (suc fuel) bytes (suc n) start h l =
    let e : start + suc n ≡ inc16 start + n = omega arith in
    let i : inc16 start ≡ start + 1 = omega arith in
    let rest : drain fuel bytes (start + suc n) (inc16 start) ≡ listing bytes (start + 1) n =
      rw (e, drain-listing fuel bytes n (inc16 start) (omega arith) (omega arith))
        (ap (λ t. listing bytes t n) i) in
    ground arith

pub drain_at_end :
    (fuel : ℕ) (bytes : ℕ → ℕ) (end start : ℕ) → end ≡ start → drain fuel bytes end start ≡ []
unfolding drain
drain_at_end zero bytes end start e = refl
drain_at_end (suc fuel) bytes end start e = ground arith
