-- ===== src/Logio/Multiples.antt =====
-- Sizes of whole blocks.
use whisperlib.Prelude.{
  ℕ, zero, suc, ◌+◌, ◌-◌, ◌*◌, ◌%◌, ◌≤◌, ◌<◌, min, ◌≡◌, ap, ◌∙◌, ◌⊎◌, inl, inr, arith,
}
use native.Mathlib.Nat.{zero-mod, add-mul-mod_self_right}

abbrev pub IsWhole : (block n : ℕ) → Type 0
IsWhole block n = (k : ℕ) × (n ≡ k * block)

le_or_less : (a b : ℕ) → (a ≤ b) ⊎ (b < a)
le_or_less a b = ground arith

pub IsWhole-add : (block m n : ℕ) → IsWhole block m → IsWhole block n → IsWhole block (m + n)
IsWhole-add block m n h k = (h.0 + k.0, let a = h.1 in let b = k.1 in omega (arith, a, b))

sub_mul : (a b block : ℕ) → a * block - b * block ≡ (a - b) * block
sub_mul zero b block =
    let e : 0 ≡ 0 - b = omega arith in
    let f : zero * block - b * block ≡ zero * block = omega arith in f ∙ ap (λ x. x * block) e
sub_mul (suc a) zero block =
    let e : suc a ≡ suc a - 0 = omega arith in
    let f : suc a * block - zero * block ≡ suc a * block = omega arith in f ∙ ap (λ x. x * block) e
sub_mul (suc a) (suc b) block =
    let e : a - b ≡ suc a - suc b = omega arith in
    let f : suc a * block - suc b * block ≡ a * block - b * block = omega arith in
    f ∙ sub_mul a b block ∙ ap (λ x. x * block) e

pub IsWhole-sub : (block m n : ℕ) → IsWhole block m → IsWhole block n → IsWhole block (m - n)
IsWhole-sub block m n h k =
    (h.0 - k.0, ap (λ x. x - n) h.1 ∙ ap (λ x. h.0 * block - x) k.1 ∙ sub_mul h.0 k.0 block)

pub IsWhole-min : (block m n : ℕ) → IsWhole block m → IsWhole block n → IsWhole block (min m n)
IsWhole-min block m n h k = elim (le_or_less m n) [
  | inl e ↦ (h.0, (let p : min m n ≡ m = omega (arith, e) in p) ∙ h.1)
  | inr e ↦ (k.0, (let p : min m n ≡ n = omega (arith, e) in p) ∙ k.1)
]

pub IsWhole-mod : (block n : ℕ) → IsWhole block n → n % block ≡ 0
IsWhole-mod block n h =
    let e : n ≡ 0 + h.0 * block = let a = h.1 in omega (arith, a) in
    ap (λ x. x % block) e ∙ add-mul-mod_self_right 0 h.0 block ∙ zero-mod block
