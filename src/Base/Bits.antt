-- ===== src/Base/Bits.antt =====
-- Laws of the bitwise exclusive or at every width, from the recursion on binary digits.
use Prim.Native.Nat.{
  ℕ, zero, suc, ◌+◌, ◌*◌, ◌/◌, ◌%◌, ◌^◌, ◌≤◌, ◌<◌, bit_xor, bit_and, bit_or, min, max, digits,
  differ, bit_xor-bitwise, bit_and-bitwise, bit_or-bitwise,
}
use mathlib.Core.Path.{◌≡◌, refl, sym, ap, ◌∙◌}
use native.Mathlib.Omega.{arith}
use native.Mathlib.Nat.{pow-suc, div-div-eq-div-mul}

div_one : (a : ℕ) → a / 2 ^ 0 ≡ a
div_one a = omega arith

div-pow-suc : (a k : ℕ) → a / 2 ^ suc k ≡ a / 2 / 2 ^ k
div-pow-suc a k = rw pow-suc-comm (sym (div-div-eq-div-mul a 2 (2 ^ k)))
  where
    pow-suc-comm : 2 ^ suc k ≡ 2 * 2 ^ k
    pow-suc-comm = omega (arith, pow-suc 2 k)

module _ (rest : ℕ → ℕ) (digit : ℕ → ℕ → ℕ) where
  digits-zero : (fuel y : ℕ) → digits rest digit fuel 0 y ≡ rest y
  digits-zero zero y = refl
  digits-zero (suc fuel) y = refl

  -- Any two amounts of fuel that are enough for `x` give the same number.
  any_fuel : (x k y l : ℕ) → x ≤ k → x ≤ l → digits rest digit k x y ≡ digits rest digit l x y
  any_fuel zero k y l below below' = digits-zero k y ∙ sym (digits-zero l y)
  any_fuel (suc x) zero y l below below' = absurd (omega arith)
  any_fuel (suc x) (suc k) y zero below below' = absurd (omega arith)
  any_fuel (suc x) (suc k) y (suc l) below below' =
      omega (arith, any_fuel (suc x / 2) k (y / 2) l (omega arith) (omega arith))

differ_lem : (a b : ℕ) → a < 2 → b < 2 → differ a b ≡ (a + b) % 2
differ_lem zero zero p q = refl
differ_lem zero (suc zero) p q = refl
differ_lem zero (suc (suc b)) p q = absurd (omega arith)
differ_lem (suc zero) zero p q = refl
differ_lem (suc zero) (suc zero) p q = refl
differ_lem (suc zero) (suc (suc b)) p q = absurd (omega arith)
differ_lem (suc (suc a)) b p q = absurd (omega arith)

zero-bit_xor : (b : ℕ) → bit_xor 0 b ≡ b
zero-bit_xor b = bit_xor-bitwise 0 b

-- The lowest digit of `a ^ b` is the parity of the sum of the lowest digits.
pub bit_xor_step : (a b : ℕ) → bit_xor a b ≡ bit_xor (a / 2) (b / 2) * 2 + (a + b) % 2
bit_xor_step zero b = omega (arith, zero-bit_xor b, zero-bit_xor (b / 2))
bit_xor_step (suc a) b = omega (
  arith,
  bit_xor-bitwise (suc a) b,
  bit_xor-bitwise (suc a / 2) (b / 2),
  differ_lem (suc a % 2) (b % 2) (omega arith) (omega arith),
  any_fuel (λ b. b) differ (suc a / 2) a (b / 2) (suc a / 2) (omega arith) (omega arith),
)

bit_and_step : (x y : ℕ) → bit_and x y ≡ min (x % 2) (y % 2) + 2 * bit_and (x / 2) (y / 2)
bit_and_step zero y = omega (arith, bit_and-bitwise 0 y, bit_and-bitwise 0 (y / 2))
bit_and_step (suc x) y =
    let fuel =
      any_fuel (λ b. 0) min (suc x / 2) x (y / 2) (suc x / 2) (omega arith) (omega arith) in
    omega (arith, fuel, bit_and-bitwise (suc x / 2) (y / 2), bit_and-bitwise (suc x) y)

no_bits : (n x : ℕ) → x ≤ n → bit_and x 0 ≡ 0
no_bits zero zero h = bit_and-bitwise 0 0
no_bits zero (suc x) h = absurd (omega arith)
no_bits (suc n) zero h = bit_and-bitwise 0 0
no_bits (suc n) (suc x) h =
    omega (arith, no_bits n (suc x / 2) (omega arith), bit_and_step (suc x) 0)

bit_and-zero : (x : ℕ) → bit_and x 0 ≡ 0
bit_and-zero x = no_bits x x (omega arith)

pub bit_xor-half : (a b : ℕ) → bit_xor a b / 2 ≡ bit_xor (a / 2) (b / 2)
bit_xor-half a b = omega (arith, bit_xor_step a b)

pub bit_xor-parity : (a b : ℕ) → bit_xor a b % 2 ≡ (a + b) % 2
bit_xor-parity a b = omega (arith, bit_xor_step a b)

-- Two numbers are equal when their halves and their parities are.
eq_of_digits : (a b : ℕ) → a / 2 ≡ b / 2 → a % 2 ≡ b % 2 → a ≡ b
eq_of_digits a b p q = omega arith

assoc_fuel : (n a b c : ℕ) → a ≤ n → b ≤ n → bit_xor (bit_xor a b) c ≡ bit_xor a (bit_xor b c)
assoc_fuel zero zero zero c p q = sym (zero-bit_xor (bit_xor 0 c))
assoc_fuel zero zero (suc b) c p q = absurd (omega arith)
assoc_fuel zero (suc a) b c p q = absurd (omega arith)
assoc_fuel (suc n) a b c p q =
    eq_of_digits _ _
      (rw
        (
          bit_xor-half (bit_xor a b) c,
          bit_xor-half a b,
          bit_xor-half a (bit_xor b c),
          bit_xor-half b c,
        )
        (assoc_fuel n (a / 2) (b / 2) (c / 2) (omega arith) (omega arith)))
      (omega (
        arith,
        bit_xor-parity (bit_xor a b) c,
        bit_xor-parity a b,
        bit_xor-parity a (bit_xor b c),
        bit_xor-parity b c,
      ))

pub bit_xor_assoc : (a b c : ℕ) → bit_xor (bit_xor a b) c ≡ bit_xor a (bit_xor b c)
bit_xor_assoc a b c = assoc_fuel (a + b) a b c (omega arith) (omega arith)

comm_fuel : (n a b : ℕ) → a ≤ n → b ≤ n → bit_xor a b ≡ bit_xor b a
comm_fuel zero zero zero p q = refl
comm_fuel zero zero (suc b) p q = absurd (omega arith)
comm_fuel zero (suc a) b p q = absurd (omega arith)
comm_fuel (suc n) a b p q =
    eq_of_digits _ _
      (rw (bit_xor-half a b, bit_xor-half b a)
        (comm_fuel n (a / 2) (b / 2) (omega arith) (omega arith)))
      (omega (arith, bit_xor-parity a b, bit_xor-parity b a))

pub bit_xor_comm : (a b : ℕ) → bit_xor a b ≡ bit_xor b a
bit_xor_comm a b = comm_fuel (a + b) a b (omega arith) (omega arith)

self_fuel : (n a : ℕ) → a ≤ n → bit_xor a a ≡ 0
self_fuel n zero p = refl
self_fuel zero (suc a) p = absurd (omega arith)
self_fuel (suc n) (suc a) p =
    omega (arith, bit_xor_step (suc a) (suc a), self_fuel n (suc a / 2) (omega arith))

pub bit_xor_self : (a : ℕ) → bit_xor a a ≡ 0
bit_xor_self a = self_fuel a a (omega arith)

pub zero-xor : (a : ℕ) → bit_xor 0 a ≡ a
zero-xor = zero-bit_xor

pub xor-zero : (a : ℕ) → bit_xor a 0 ≡ a
xor-zero a = bit_xor_comm a 0 ∙ zero-bit_xor a

-- What is added twice is gone.
pub bit_xor_cancel_right : (a b : ℕ) → bit_xor (bit_xor a b) b ≡ a
bit_xor_cancel_right a b = rw (bit_xor_assoc a b b, bit_xor_self b) (xor-zero a)

pub bit_xor-injective_left : (a b c : ℕ) → bit_xor a c ≡ bit_xor b c → a ≡ b
bit_xor-injective_left a b c h =
    sym (bit_xor_cancel_right a c) ∙ ap (λ x. bit_xor x c) h ∙ bit_xor_cancel_right b c

pub bit_xor-injective_right : (a b c : ℕ) → bit_xor c a ≡ bit_xor c b → a ≡ b
bit_xor-injective_right a b c h =
    bit_xor-injective_left a b c (bit_xor_comm a c ∙ h ∙ bit_xor_comm c b)

-- A shift to the right goes inside.
pub bit_xor-shift : (k a b : ℕ) → bit_xor a b / 2 ^ k ≡ bit_xor (a / 2 ^ k) (b / 2 ^ k)
bit_xor-shift zero a b = rw (div_one a, div_one b) (div_one (bit_xor a b))
bit_xor-shift (suc k) a b =
    rw (div-pow-suc (bit_xor a b) k, div-pow-suc a k, div-pow-suc b k, bit_xor-half a b)
      (bit_xor-shift k (a / 2) (b / 2))

pub bit_xor-lt : (k a b : ℕ) → a < 2 ^ k → b < 2 ^ k → bit_xor a b < 2 ^ k
bit_xor-lt zero zero zero p q = omega arith
bit_xor-lt zero zero (suc b) p q = absurd (omega arith)
bit_xor-lt zero (suc a) b p q = absurd (omega arith)
bit_xor-lt (suc k) a b p q = omega (
  arith,
  pow-suc 2 k,
  bit_xor-half a b,
  bit_xor-lt k (a / 2) (b / 2) (omega (arith, pow-suc 2 k)) (omega (arith, pow-suc 2 k)),
)

-- Fields that do not overlap are added.
pub bit_xor_fields : (k h l : ℕ) → l < 2 ^ k → bit_xor (h * 2 ^ k) l ≡ h * 2 ^ k + l
bit_xor_fields zero h zero p = xor-zero _ ∙ omega arith
bit_xor_fields zero h (suc l) p = absurd (omega arith)
bit_xor_fields (suc k) h l p =
    let double : h * 2 ^ suc k ≡ 2 * (h * 2 ^ k) = omega (arith, ap (λ t. h * t) (pow-suc 2 k)) in
    let half : h * 2 ^ suc k / 2 ≡ h * 2 ^ k = omega arith in
    omega (
      arith,
      bit_xor_step (h * 2 ^ suc k) l,
      ap (λ t. bit_xor t (l / 2)) half,
      bit_xor_fields k h (l / 2) (omega (arith, pow-suc 2 k)),
    )

-- A mask of k ones takes k steps.
bit_and_three : (a : ℕ) → bit_and a 3 ≡ a % 4
bit_and_three a = omega (arith, bit_and_step a 3, bit_and_step (a / 2) 1, bit_and-zero (a / 2 / 2))

bit_and_fifteen : (a : ℕ) → bit_and a 15 ≡ a % 16
bit_and_fifteen a =
    omega (arith, bit_and_step a 15, bit_and_step (a / 2) 7, bit_and_three (a / 2 / 2))

-- `x & 0xff` is the lowest byte.
pub bit_and_byte : (a : ℕ) → bit_and a 0xff ≡ a % 256
bit_and_byte a = omega (
  arith,
  bit_and_step a 255,
  bit_and_step (a / 2) 127,
  bit_and_step (a / 2 / 2) 63,
  bit_and_step (a / 2 / 2 / 2) 31,
  bit_and_fifteen (a / 2 / 2 / 2 / 2),
)

bit_or_step : (a b : ℕ) → bit_or a b ≡ bit_or (a / 2) (b / 2) * 2 + max (a % 2) (b % 2)
bit_or_step zero b = omega (arith, bit_or-bitwise 0 b, bit_or-bitwise 0 (b / 2))
bit_or_step (suc a) b = omega (
  arith,
  bit_or-bitwise (suc a) b,
  bit_or-bitwise (suc a / 2) (b / 2),
  any_fuel (λ b. b) max (suc a / 2) a (b / 2) (suc a / 2) (omega arith) (omega arith),
)

or_zero_fuel : (n a : ℕ) → a ≤ n → bit_or a 0 ≡ a
or_zero_fuel n zero h = bit_or-bitwise 0 0
or_zero_fuel zero (suc a) h = absurd (omega arith)
or_zero_fuel (suc n) (suc a) h =
    omega (arith, bit_or_step (suc a) 0, or_zero_fuel n (suc a / 2) (omega arith))

-- So does `|` of fields that do not overlap.
pub bit_or_fields : (k h l : ℕ) → l < 2 ^ k → bit_or (h * 2 ^ k) l ≡ h * 2 ^ k + l
bit_or_fields zero h zero p = or_zero_fuel (h * 2 ^ 0) (h * 2 ^ 0) (omega arith) ∙ omega arith
bit_or_fields zero h (suc l) p = absurd (omega arith)
bit_or_fields (suc k) h l p =
    let double : h * 2 ^ suc k ≡ 2 * (h * 2 ^ k) = omega (arith, ap (λ t. h * t) (pow-suc 2 k)) in
    let half : h * 2 ^ suc k / 2 ≡ h * 2 ^ k = omega arith in
    omega (
      arith,
      bit_or_step (h * 2 ^ suc k) l,
      ap (λ t. bit_or t (l / 2)) half,
      bit_or_fields k h (l / 2) (omega (arith, pow-suc 2 k)),
    )

none_set : (n a b : ℕ) → a ≤ n → b ≤ n → bit_or a b ≡ 0 → (a ≡ 0) × (b ≡ 0)
none_set zero a b p q h = omega arith
none_set (suc n) a b p q h =
    let (x, y) =
      none_set n (a / 2) (b / 2) (omega arith) (omega arith) (omega (arith, bit_or_step a b)) in
    (omega (arith, bit_or_step a b), omega (arith, bit_or_step a b))

-- `a | b` is zero only if both are.
pub zero_of_bit_or : (a b : ℕ) → bit_or a b ≡ 0 → (a ≡ 0) × (b ≡ 0)
zero_of_bit_or a b h = none_set (a + b) a b (omega arith) (omega arith) h

pub eq_of_bit_xor : (a b : ℕ) → bit_xor a b ≡ 0 → a ≡ b
eq_of_bit_xor a b h = bit_xor-injective_left a b b (h ∙ sym (bit_xor_self b))
