-- ===== src/Hashing/Bits.antt =====
-- `bit_xor` below a power of two.
use Prim.Native.Nat.{bit_xor, digits, differ, bit_xor-bitwise}
use ffi_rpc.Base.{ℕ, zero, suc, ◌*◌, ◌/◌, ◌%◌, ◌<◌, ◌≤◌, arith, subst, sym}

abbrev pub power : ℕ → ℕ
power zero = 1
power (suc k) = 2 * power k

abbrev xor_digits : ℕ → ℕ → ℕ → ℕ
xor_digits n a b = digits (λ b. b) differ n a b

-- The difference of two binary digits is one.
differ-le : (a b : ℕ) → a ≤ 1 → b ≤ 1 → differ a b ≤ 1
differ-le zero b h k = k
differ-le (suc a) zero h k = h
differ-le (suc zero) (suc zero) h k = omega arith
differ-le (suc zero) (suc (suc b)) h k = absurd (omega arith)
differ-le (suc (suc a)) (suc b) h k = absurd (omega arith)

differ-bit : (a b : ℕ) → differ (a % 2) (b % 2) ≤ 1
differ-bit a b = differ-le (a % 2) (b % 2) (omega arith) (omega arith)

xor_digits-lt : (n k a b : ℕ) → a ≤ n → a < power k → b < power k → xor_digits n a b < power k
xor_digits-lt zero k zero b h p q = q
xor_digits-lt zero k (suc a) b h p q = absurd (omega arith)
xor_digits-lt (suc n) k zero b h p q = q
xor_digits-lt (suc n) zero (suc a) b h p q = absurd (omega arith)
xor_digits-lt (suc n) (suc k) (suc a) b h p q = omega (
  arith,
  xor_digits-lt n k (suc a / 2) (b / 2) (omega arith) (omega arith) (omega arith),
  differ-bit (suc a) b,
)

pub bit_xor-lt : (k a b : ℕ) → a < power k → b < power k → bit_xor a b < power k
bit_xor-lt k a b p q =
    subst (λ (n : ℕ). n < power k) (sym (bit_xor-bitwise a b))
      (xor_digits-lt a k a b (omega arith) p q)
