-- ===== src/Logio/Position/Order.antt =====
-- The comparison of positions of io/logio/logio.h against the lexicographic order.
use whisperlib.Prelude.{
  ◌+◌, ◌≡◌, ◌⊎◌, inl, inr, ◌↔◌, true, false, not, ◌||◌, ℤ, pos, pos_part, neg_part, -ℤ_parts, ◌<ℤ◌,
  ◌≤ℤ◌, eq_of_parts, arith, Bool-cases,
}
use whisperlib.Logio.Position.{
  LogPos, Sign, compare_pos, eqb_pos, neb_pos, ltb_pos, leb_pos, gtb_pos, geb_pos, decrement,
}

abbrev pub EqZ : ℤ → ℤ → Type 0
EqZ a b = pos_part a + neg_part b ≡ pos_part b + neg_part a

-- File first, then block, then record.
abbrev pub LtPos : LogPos → LogPos → Type 0
LtPos a b =
    (a.file_num <ℤ b.file_num)
    ⊎ (EqZ a.file_num b.file_num
        × ((a.block_num <ℤ b.block_num)
            ⊎ (EqZ a.block_num b.block_num × (a.record_num <ℤ b.record_num))))

abbrev pub EqPos : LogPos → LogPos → Type 0
EqPos a b = EqZ a.file_num b.file_num × EqZ a.block_num b.block_num × EqZ a.record_num b.record_num

EqPos-eq : (a b : LogPos) → EqPos a b → a ≡ b
EqPos-eq a b h = ground (
  arith,
  eq_of_parts a.file_num b.file_num,
  eq_of_parts a.block_num b.block_num,
  eq_of_parts a.record_num b.record_num,
)

pub ltb_pos_iff : (a b : LogPos) → (ltb_pos a b ≡ true) ↔ LtPos a b
unfolding ltb_pos compare_pos
ltb_pos_iff a b = (λ h. ground arith, λ h. ground arith)

pub geb-ltb : (a b : LogPos) → geb_pos a b ≡ not (ltb_pos a b)
unfolding ltb_pos geb_pos compare_pos
geb-ltb a b = ground arith

pub gtb-ltb : (a b : LogPos) → gtb_pos a b ≡ ltb_pos b a
unfolding ltb_pos gtb_pos compare_pos
gtb-ltb a b = ground arith

pub leb-ltb : (a b : LogPos) → leb_pos a b ≡ not (ltb_pos b a)
unfolding ltb_pos leb_pos compare_pos
leb-ltb a b = ground arith

pub eqb_pos_iff : (a b : LogPos) → (eqb_pos a b ≡ true) ↔ (a ≡ b)
unfolding eqb_pos
eqb_pos_iff a b = (λ h. EqPos-eq a b (ground arith), λ h. ground arith)

pub ltb_pos_irrefl : (a : LogPos) → ltb_pos a a ≡ false
unfolding ltb_pos compare_pos
ltb_pos_irrefl a = ground arith

pub LtPos-trans : (a b c : LogPos) → LtPos a b → LtPos b c → LtPos a c
LtPos-trans a b c h k = omega arith

pub eq_of_not_ltb_pos : (a b : LogPos) → ltb_pos a b ≡ false → ltb_pos b a ≡ false → a ≡ b
unfolding ltb_pos compare_pos
eq_of_not_ltb_pos a b h k = EqPos-eq a b (ground arith)

-- `Compare` is the lexicographic order of file, block and record: it answers -1 exactly for a smaller
-- position, 0 exactly for the same one and 1 exactly for a larger one.
pub compare_pos_iff :
    (a b : LogPos)
    → ((compare_pos a b ≡ Sign.less) ↔ LtPos a b)
      × ((compare_pos a b ≡ Sign.same) ↔ (a ≡ b))
      × ((compare_pos a b ≡ Sign.more) ↔ LtPos b a)
unfolding compare_pos
compare_pos_iff a b = (
  (λ h. ground arith, λ h. ground arith),
  (λ h. EqPos-eq a b (ground arith), λ h. ground arith),
  (λ h. ground arith, λ h. ground arith),
)

-- The six comparison operators agree with one another: each is determined by `<` and `==`.
pub operators_agree :
    (a b : LogPos)
    → (gtb_pos a b ≡ ltb_pos b a)
      × (geb_pos a b ≡ not (ltb_pos a b))
      × (leb_pos a b ≡ (ltb_pos a b || eqb_pos a b))
      × (neb_pos a b ≡ not (eqb_pos a b))
unfolding ltb_pos leb_pos eqb_pos neb_pos compare_pos
operators_agree a b = (gtb-ltb a b, geb-ltb a b, ground arith, ground arith)

pub leb_pos_trans : (a b c : LogPos) → leb_pos a b ≡ true → leb_pos b c ≡ true → leb_pos a c ≡ true
leb_pos_trans a b c h k = elim (Bool-cases (ltb_pos c a)) [
  | inl lt ↦ elim (Bool-cases (ltb_pos a b)) [
    | inl ab ↦ ground (
      arith,
      leb-ltb b c,
      (ltb_pos_iff c b).1 (LtPos-trans c a b ((ltb_pos_iff c a).0 lt) ((ltb_pos_iff a b).0 ab)),
    )
    | inr nab ↦ ground (arith, leb-ltb a b, leb-ltb b c, eq_of_not_ltb_pos a b nab)
  ]
  | inr ge ↦ ground (arith, leb-ltb a c)
]

-- Stepping back from a position of a file gives a strictly smaller position.
pub ltb_pos-decrement :
    (p : LogPos) (blocks_per_file : ℤ)
    → pos 0 ≤ℤ p.file_num
    → ltb_pos (decrement p blocks_per_file) p ≡ true
unfolding ltb_pos compare_pos decrement
ltb_pos-decrement p n h = ground (
  arith,
  -ℤ_parts p.record_num (pos 1),
  -ℤ_parts p.block_num (pos 1),
  -ℤ_parts p.file_num (pos 1),
)

pub leb_pos_refl : (a : LogPos) → leb_pos a a ≡ true
leb_pos_refl a = ground (arith, leb-ltb a a, ltb_pos_irrefl a)

pub gtb-leb : (a b : LogPos) → gtb_pos a b ≡ not (leb_pos a b)
unfolding gtb_pos leb_pos compare_pos
gtb-leb a b = ground arith

pub leb_pos_total : (a b : LogPos) → leb_pos a b ≡ false → leb_pos b a ≡ true
unfolding leb_pos compare_pos
leb_pos_total a b h = ground arith

pub ltb_pos_trans : (a b c : LogPos) → ltb_pos a b ≡ true → ltb_pos b c ≡ true → ltb_pos a c ≡ true
ltb_pos_trans a b c h k =
    (ltb_pos_iff a c).1 (LtPos-trans a b c ((ltb_pos_iff a b).0 h) ((ltb_pos_iff b c).0 k))

pub leb_of_ltb : (a b : LogPos) → ltb_pos a b ≡ true → leb_pos a b ≡ true
unfolding ltb_pos leb_pos compare_pos
leb_of_ltb a b h = ground arith

pub leb-ltb_pos_trans :
    (a b c : LogPos) → leb_pos a b ≡ true → ltb_pos b c ≡ true → ltb_pos a c ≡ true
leb-ltb_pos_trans a b c h k = elim (Bool-cases (ltb_pos a b)) [
  | inl lt ↦ ltb_pos_trans a b c lt k
  | inr ge ↦ ground (arith, leb-ltb a b, eq_of_not_ltb_pos a b ge)
]
