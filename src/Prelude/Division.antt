-- ===== src/Prelude/Division.antt =====
-- Division and remainder by products, and powers.
use native.Mathlib.Omega.{arith}
use Prim.Native.Nat.{ℕ, zero, suc, ◌+◌, ◌*◌, ◌/◌, ◌%◌, ◌^◌, ◌<◌}
use mathlib.Core.Path.{◌≡◌, ap, sym, ◌∙◌}
use native.Mathlib.Nat.{
  add-zero, add-suc, pow-suc, pow-zero, div-add-mod, mul-add-mod_self_left, mod-eq_of_lt,
  mul-add-div, div-lt_iff_lt-mul, mod-lt, mul-lt-mul_of_pos_left,
}

pub pow-add : (b m n : ℕ) → b ^ (m + n) ≡ b ^ m * b ^ n
pow-add b m zero =
    omega (arith, ap (λ (p : ℕ). b ^ m * p) (pow-zero b), ap (λ (p : ℕ). b ^ p) (add-zero m))
pow-add b m (suc n) = omega (
  arith,
  ap (λ (p : ℕ). b ^ p) (add-suc m n),
  pow-suc b (m + n),
  pow-suc b n,
  ap (λ (p : ℕ). p * b) (pow-add b m n),
  ap (λ (p : ℕ). b ^ m * p) (pow-suc b n),
)

pub mul-pos : (k s : ℕ) → 0 < k → 0 < s → 0 < k * s
mul-pos k s k_pos s_pos = omega (arith, mul-lt-mul_of_pos_left s_pos k_pos)

-- A factor of both sides can be taken out of a remainder.
pub mul-mod-mul : (s x k : ℕ) → 0 < s → 0 < k → s * x % (s * k) ≡ s * (x % k)
mul-mod-mul s x k s_pos k_pos =
    ap (λ (n : ℕ). n % (s * k)) split
    ∙ mul-add-mod_self_left (s * k) (x / k) (s * (x % k))
    ∙ mod-eq_of_lt (mul-lt-mul_of_pos_left (mod-lt x k_pos) s_pos)
  where
    split : s * x ≡ s * k * (x / k) + s * (x % k)
    split = omega (arith, ap (λ (n : ℕ). s * n) (div-add-mod x k))

-- The lower digits of a quotient are a quotient of lower digits.
pub mod-mul-div : (x k s : ℕ) → 0 < k → 0 < s → x % (k * s) / k ≡ x / k % s
mod-mul-div x k s k_pos s_pos = sym (ap (λ (n : ℕ). n % s) (split ∙ more) ∙ less)
  where
    r : ℕ
    r = x % (k * s)

    split : x / k ≡ (k * (s * (x / (k * s))) + r) / k
    split = ap (λ (n : ℕ). n / k) (omega (arith, div-add-mod x (k * s)))

    more : (k * (s * (x / (k * s))) + r) / k ≡ s * (x / (k * s)) + r / k
    more = mul-add-div k_pos (s * (x / (k * s))) r

    less : (s * (x / (k * s)) + r / k) % s ≡ r / k
    less =
        mul-add-mod_self_left s (x / (k * s)) (r / k)
        ∙ mod-eq_of_lt
            ((div-lt_iff_lt-mul k_pos).1 (omega (arith, mod-lt x (mul-pos k s k_pos s_pos))))
