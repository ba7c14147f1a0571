-- ===== src/Bits/Laws.antt =====
-- Reading a bit after a write, and the range of a written word, for every position.
use csc369group.Prelude.{
  ℕ, zero, suc, ◌+◌, ◌*◌, ◌/◌, ◌%◌, ◌^◌, ◌≤◌, ◌<◌, ◌≡◌, ◌≢◌, refl, true, false, arith,
  if◌then◌else◌, ◌==◌, ==_iff, Bool-cases, inl, inr, ◌-◌, ap, ◌∙◌,
}
use native.Mathlib.Nat.{pow-suc}
use csc369group.Bits.{bit, set_bit, clear_bit, toggle_bit}

half_of : (a b : ℕ) → b < 2 → (a * 2 + b) / 2 ≡ a
half_of a b h = omega arith

parity_of : (a b : ℕ) → b < 2 → (a * 2 + b) % 2 ≡ b
parity_of a b h = omega arith

pub bit-set_bit : (j k w : ℕ) → bit j (set_bit k w) ≡ (if j == k then true else bit j w)
unfolding bit set_bit
bit-set_bit zero zero w = ground arith
bit-set_bit zero (suc k) w = ground (arith, parity_of (set_bit k (w / 2)) (w % 2))
bit-set_bit (suc j) zero w = ground (arith, half_of (w / 2) 1)
bit-set_bit (suc j) (suc k) w =
    ground (arith, half_of (set_bit k (w / 2)) (w % 2), bit-set_bit j k (w / 2))

pub bit-clear_bit : (j k w : ℕ) → bit j (clear_bit k w) ≡ (if j == k then false else bit j w)
unfolding bit clear_bit
bit-clear_bit zero zero w = ground arith
bit-clear_bit zero (suc k) w = ground (arith, parity_of (clear_bit k (w / 2)) (w % 2))
bit-clear_bit (suc j) zero w = ground (arith, half_of (w / 2) 0)
bit-clear_bit (suc j) (suc k) w =
    ground (arith, half_of (clear_bit k (w / 2)) (w % 2), bit-clear_bit j k (w / 2))

pub set_bit-lt : (n k w : ℕ) → k < n → w < 2 ^ n → set_bit k w < 2 ^ n
unfolding set_bit
set_bit-lt zero k w h l = absurd (omega arith)
set_bit-lt (suc n) zero w h l = omega (arith, pow-suc 2 n)
set_bit-lt (suc n) (suc k) w h l =
    omega (arith, pow-suc 2 n, set_bit-lt n k (w / 2) (omega arith) (omega (arith, pow-suc 2 n)))

pub one-le-pow2 : (n : ℕ) → 1 ≤ 2 ^ n
one-le-pow2 zero = omega arith
one-le-pow2 (suc n) = omega (arith, pow-suc 2 n, one-le-pow2 n)

pub clear_bit-le : (k w : ℕ) → clear_bit k w ≤ w
unfolding clear_bit
clear_bit-le zero w = omega arith
clear_bit-le (suc k) w = omega (arith, clear_bit-le k (w / 2))

pub bit-toggle_bit :
    (j k w : ℕ)
    → bit j (toggle_bit k w) ≡ (if j == k then (if bit k w then false else true) else bit j w)
unfolding toggle_bit
bit-toggle_bit j k w = ground (arith, bit-set_bit j k w, bit-clear_bit j k w)

-- No bit is set in zero.
pub bit-zero : (k : ℕ) → bit k 0 ≡ false
unfolding bit
bit-zero zero = refl
bit-zero (suc k) = bit-zero k

-- A word below 2 ^ n has no bit from n on.
pub bit-beyond : (n k w : ℕ) → n ≤ k → w < 2 ^ n → bit k w ≡ false
unfolding bit
bit-beyond zero zero w h l = ground arith
bit-beyond zero (suc k) w h l = bit-beyond zero k (w / 2) (omega arith) (omega arith)
bit-beyond (suc n) zero w h l = absurd (omega arith)
bit-beyond (suc n) (suc k) w h l = bit-beyond n k (w / 2) (omega arith) (omega (arith, pow-suc 2 n))

-- A word of n ones is the only word below 2 ^ n whose first n bits are all set.
pub bit_clear_exists : (n w : ℕ) → w < 2 ^ n → w ≢ 2 ^ n - 1 → (k : ℕ) × (k < n) × (bit k w ≡ false)
unfolding bit
bit_clear_exists zero w l ne = absurd (ne (omega arith))
bit_clear_exists (suc n) w l ne = elim (Bool-cases ((w % 2) == 1)) [
  | inr even ↦ (0, omega arith, even)
  | inl odd ↦
      let (k, lt, clear) =
        bit_clear_exists n (w / 2) (omega (arith, pow-suc 2 n))
          λ e. ne (omega (arith, pow-suc 2 n, (==_iff (w % 2) 1).0 odd, one-le-pow2 n)) in
      (suc k, omega arith, clear)
]

pub clear_bit_self : (k w : ℕ) → bit k w ≡ false → clear_bit k w ≡ w
unfolding bit clear_bit
clear_bit_self zero w h = ground arith
clear_bit_self (suc k) w h = omega (arith, clear_bit_self k (w / 2) h)

pub clear_bit-set_bit : (k w : ℕ) → clear_bit k (set_bit k w) ≡ clear_bit k w
unfolding set_bit clear_bit
clear_bit-set_bit zero w = omega arith
clear_bit-set_bit (suc k) w = cc (
  half_of (set_bit k (w / 2)) (w % 2) (omega arith),
  parity_of (set_bit k (w / 2)) (w % 2) (omega arith),
  clear_bit-set_bit k (w / 2),
)

-- The word of n ones has all of its first n bits set.
pub bit_of_ones : (n k : ℕ) → k < n → bit k (2 ^ n - 1) ≡ true
unfolding bit
bit_of_ones zero k h = absurd (omega arith)
bit_of_ones (suc n) zero h = ground (arith, pow-suc 2 n, one-le-pow2 n)
bit_of_ones (suc n) (suc k) h =
    let half : (2 ^ suc n - 1) / 2 ≡ 2 ^ n - 1 = omega (arith, pow-suc 2 n, one-le-pow2 n) in
    ap (bit k) half ∙ bit_of_ones n k (omega arith)
