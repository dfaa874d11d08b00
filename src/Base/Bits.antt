-- ===== src/Base/Bits.antt =====
-- A mask of ones is a remainder.
use Prim.Native.Nat.{
  ℕ, zero, suc, ◌+◌, ◌*◌, ◌-◌, ◌/◌, ◌%◌, ◌^◌, ◌≤◌, ◌<◌, min, bit_and, digits, bit_and-bitwise,
}
use mathlib.Core.Path.{◌≡◌, refl, ap, ap₂, sym, ◌∙◌}
use native.Mathlib.Nat.{mod-lt, mod-eq_of_lt, mod-add-div, mul-add-mod_self_left, pow-succ'}
use native.Mathlib.Omega.{arith}

-- `digits` does not depend on its fuel, once that covers the first argument.
same_digits :
    (a b f g : ℕ) → a ≤ f → a ≤ g → digits (λ y. zero) min f a b ≡ digits (λ y. zero) min g a b
same_digits zero b zero zero hf hg = refl
same_digits zero b zero (suc g) hf hg = refl
same_digits zero b (suc f) zero hf hg = refl
same_digits zero b (suc f) (suc g) hf hg = refl
same_digits (suc a) b zero g hf hg = absurd (omega arith)
same_digits (suc a) b (suc f) zero hf hg = absurd (omega arith)
same_digits (suc a) b (suc f) (suc g) hf hg =
    let rest = same_digits (suc a / 2) (b / 2) f g (omega arith) (omega arith) in omega arith

-- One binary digit of `bit_and`, from the definition that the native operation stands for.
bit_and_step : (a b : ℕ) → bit_and a b ≡ bit_and (a / 2) (b / 2) * 2 + min (a % 2) (b % 2)
bit_and_step zero b =
    let whole = bit_and-bitwise 0 b in let half = bit_and-bitwise 0 (b / 2) in omega arith
bit_and_step (suc a) b =
    let whole = bit_and-bitwise (suc a) b in
    let half = bit_and-bitwise (suc a / 2) (b / 2) in
    let fuel = same_digits (suc a / 2) (b / 2) a (suc a / 2) (omega arith) (omega arith) in
    omega arith

no_bits : (bound a : ℕ) → a ≤ bound → bit_and a 0 ≡ 0
no_bits bound zero h = refl
no_bits zero (suc a) h = absurd (omega arith)
no_bits (suc bound) (suc a) h =
    let rest = no_bits bound (suc a / 2) (omega arith) in omega (arith, bit_and_step (suc a) 0)

-- The remainder for twice the modulus, one binary digit at a time.
mod_double : (x c : ℕ) → 0 < c → x % (2 * c) ≡ x / 2 % c * 2 + x % 2
mod_double x c h =
    ap (λ n. n % (2 * c)) (grind (arith, mod-add-div (x / 2) c))
    ∙ mul-add-mod_self_left (2 * c) (x / 2 / c) (x / 2 % c * 2 + x % 2)
    ∙ mod-eq_of_lt (omega (arith, mod-lt (x / 2) h))

pub pow_pos : (k : ℕ) → 0 < 2 ^ k
pow_pos zero = omega arith
pow_pos (suc k) = omega (arith, pow-succ' 2 k, pow_pos k)

-- The mask `2 ^ k - 1` takes the remainder by `2 ^ k`.
pub bit_and_mask : (k x : ℕ) → bit_and x (2 ^ k - 1) ≡ x % 2 ^ k
bit_and_mask zero x = omega (arith, no_bits x x (omega arith))
bit_and_mask (suc k) x =
    bit_and_step x (2 ^ suc k - 1)
    ∙ ap₂ (λ a b. bit_and (x / 2) a * 2 + b) (omega (arith, pow-succ' 2 k, pow_pos k))
        (omega (arith, pow-succ' 2 k, pow_pos k))
    ∙ ap (λ a. a * 2 + x % 2) (bit_and_mask k (x / 2))
    ∙ sym (mod_double x (2 ^ k) (pow_pos k))
    ∙ ap (λ c. x % c) (sym (pow-succ' 2 k))
