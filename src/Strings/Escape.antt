-- ===== src/Strings/Escape.antt =====
-- StrEscape and StrUnescape of base/strutil.cc.
use whisperlib.Prelude.{
  ℕ, zero, suc, ◌+◌, ◌-◌, ◌*◌, ◌/◌, ◌%◌, ◌≤◌, ◌<◌, ltb, leb, ◌==◌, ==_iff, ◌≡◌, refl, sym, ap, ◌∙◌,
  inl, inr, Bool, true, false, ◌&&◌, ◌||◌, Bool-cases, if◌then◌else◌, List, [], ◌∷◌, ◌++◌, arith,
}

-- What printf writes for %x of a number below 16.
abbrev hex_digit : ℕ → ℕ
hex_digit n = if ltb n 10 then n + 48 else n + 87

unfoldable pub hexval : ℕ → ℕ
hexval c =
    if leb 48 c && leb c 57
    then c - 48
    else if leb 97 c && leb c 102
    then c - 87
    else if leb 65 c && leb c 70
    then c - 55
    else 0

abbrev contains : ℕ → List ℕ → Bool
contains c [] = false
contains c (x ∷ xs) = c == x || contains c xs

-- The bytes that are escaped: those asked for, the escape itself, and those that do not print.
abbrev pub to_escape : (escape : ℕ) → (chars_to_escape : List ℕ) → ℕ → Bool
to_escape escape chars c = contains c (escape ∷ chars) || (ltb c 32 || ltb 126 c)

-- StrNEscape
unfoldable pub str_escape : (escape : ℕ) → (chars_to_escape text : List ℕ) → List ℕ
str_escape escape chars [] = []
str_escape escape chars (c ∷ text) =
    (if to_escape escape chars c
      then escape ∷ hex_digit (c / 16) ∷ hex_digit (c % 16) ∷ []
      else c ∷ [])
    ++ str_escape escape chars text

-- c_str(), up to the first zero.
abbrev c_str : List ℕ → List ℕ
c_str [] = []
c_str (zero ∷ text) = []
c_str (suc c ∷ text) = suc c ∷ c_str text

-- A round of StrUnescape: the new esc_count and what is put out for the character after `previous`.
unfoldable pub unescape_char : (escape : ℕ) → (esc_count previous : ℕ) → ℕ → ℕ × List ℕ
unescape_char escape esc_count previous c =
    if c == escape
    then (1, [])
    else if esc_count == 0
    then (0, c ∷ [])
    else if esc_count == 2
    then (0, (hexval c + 16 * hexval previous) % 256 ∷ [])
    else (esc_count + 1, [])

unfoldable pub unescape_loop : (escape : ℕ) → (esc_count previous : ℕ) → List ℕ → List ℕ
unescape_loop escape esc_count previous [] = []
unescape_loop escape esc_count previous (c ∷ text) =
    let round = unescape_char escape esc_count previous c in
    round.1 ++ unescape_loop escape round.0 c text

-- StrUnescape
unfoldable pub str_unescape : (escape : ℕ) → List ℕ → List ℕ
str_unescape escape text = unescape_loop escape 0 0 (c_str text)

abbrev pub AreBytes : List ℕ → Type 0
AreBytes [] = Unit {0}
AreBytes (c ∷ text) = (c < 256) × AreBytes text

-- The digits that are written.
abbrev pub is_hex_digit : ℕ → Bool
is_hex_digit c = leb 48 c && leb c 57 || leb 97 c && leb c 102

hexval-hex_digit : (n : ℕ) → n < 16 → hexval (hex_digit n) ≡ n
unfolding hexval
hexval-hex_digit n h = ground (arith, h)

hex_digit-is_hex_digit : (n : ℕ) → n < 16 → is_hex_digit (hex_digit n) ≡ true
hex_digit-is_hex_digit n h = ground (arith, h)

hex_digit-other :
    (escape n : ℕ) → is_hex_digit escape ≡ false → n < 16 → (hex_digit n == escape) ≡ false
hex_digit-other escape n e h = elim (Bool-cases (hex_digit n == escape)) [
  | inl same ↦
      let s = (==_iff (hex_digit n) escape).0 same in
      let t = sym (hex_digit-is_hex_digit n h) ∙ ap is_hex_digit s ∙ e in absurd cc
  | inr isnt ↦ isnt
]

round_escape : (escape previous : ℕ) → unescape_char escape 0 previous escape ≡ (1, [])
unfolding unescape_char
round_escape escape previous = let same : (escape == escape) ≡ true = ground arith in rw (same)

round_first :
    (escape previous c : ℕ) → (c == escape) ≡ false → unescape_char escape 1 previous c ≡ (2, [])
unfolding unescape_char
round_first escape previous c e = rw (e)

round_second :
    (escape previous c : ℕ)
    → (c == escape) ≡ false
    → unescape_char escape 2 previous c ≡ (0, (hexval c + 16 * hexval previous) % 256 ∷ [])
unfolding unescape_char
round_second escape previous c e = rw (e)

-- A byte that was escaped.
escaped :
    (escape previous c : ℕ) (rest : List ℕ)
    → is_hex_digit escape ≡ false
    → c < 256
    → unescape_loop escape 0 previous (escape ∷ hex_digit (c / 16) ∷ hex_digit (c % 16) ∷ rest)
      ≡ c ∷ unescape_loop escape 0 (hex_digit (c % 16)) rest
unfolding unescape_loop
escaped escape previous c rest e h =
    let high : c / 16 < 16 = omega (arith, h) in
    let low : c % 16 < 16 = omega arith in
    let one =
      round_first escape escape (hex_digit (c / 16)) (hex_digit-other escape (c / 16) e high) in
    let two =
      round_second escape (hex_digit (c / 16)) (hex_digit (c % 16))
        (hex_digit-other escape (c % 16) e low) in
    let value : (hexval (hex_digit (c % 16)) + 16 * hexval (hex_digit (c / 16))) % 256 ≡ c =
      ap (λ x. (x + 16 * hexval (hex_digit (c / 16))) % 256) (hexval-hex_digit (c % 16) low)
      ∙ ap (λ x. (c % 16 + 16 * x) % 256) (hexval-hex_digit (c / 16) high)
      ∙ omega (arith, h) in
    rw (round_escape escape previous, one, two)
      (ap (λ x. x ∷ unescape_loop escape 0 (hex_digit (c % 16)) rest) value)

plain :
    (escape previous c : ℕ) (rest : List ℕ)
    → (c == escape) ≡ false
    → unescape_loop escape 0 previous (c ∷ rest) ≡ c ∷ unescape_loop escape 0 c rest
unfolding unescape_loop unescape_char
plain escape previous c rest e = rw (e)

or_neither : (a b : Bool) → (a || b) ≡ false → (a ≡ false) × (b ≡ false)
or_neither true b h = absurd cc
or_neither false b h = (refl, h)

prints : (c : ℕ) → (ltb c 32 || ltb 126 c) ≡ false → 1 ≤ c
prints c h = let l = (or_neither (ltb c 32) (ltb 126 c) h).0 in ground (arith, l)

digit_some : (n : ℕ) → 1 ≤ hex_digit n
digit_some n = ground arith

-- An escaped text has no zero.
c_str-str_escape :
    (escape : ℕ) (chars text : List ℕ)
    → 1 ≤ escape
    → c_str (str_escape escape chars text) ≡ str_escape escape chars text
unfolding str_escape
c_str-str_escape escape chars [] h = refl
c_str-str_escape escape chars (c ∷ text) h =
    let rest = c_str-str_escape escape chars text h in
    elim (Bool-cases (to_escape escape chars c)) [
      | inl is ↦ rw (is) (
          c_str_cons escape _ h
          ∙ ap (λ l. escape ∷ l)
              (c_str_cons (hex_digit (c / 16)) _ (digit_some (c / 16))
                ∙ ap (λ l. hex_digit (c / 16) ∷ l)
                    (c_str_cons (hex_digit (c % 16)) _ (digit_some (c % 16))
                      ∙ ap (λ l. hex_digit (c % 16) ∷ l) rest)))
      | inr isnt ↦ rw (isnt) (
          c_str_cons c _
            (prints c (or_neither (contains c (escape ∷ chars)) (ltb c 32 || ltb 126 c) isnt).1)
          ∙ ap (λ l. c ∷ l) rest)
    ]
  where
    c_str_cons : (x : ℕ) (l : List ℕ) → 1 ≤ x → c_str (x ∷ l) ≡ x ∷ c_str l
    c_str_cons zero l k = absurd (omega (arith, k))
    c_str_cons (suc x) l k = refl

unescape-str_escape :
    (escape previous : ℕ) (chars text : List ℕ)
    → is_hex_digit escape ≡ false
    → AreBytes text
    → unescape_loop escape 0 previous (str_escape escape chars text) ≡ text
unfolding str_escape unescape_loop
unescape-str_escape escape previous chars [] e h = refl
unescape-str_escape escape previous chars (c ∷ text) e h =
    elim (Bool-cases (to_escape escape chars c)) [
      | inl is ↦ rw (is) (
          escaped escape previous c (str_escape escape chars text) e h.0
          ∙ ap (λ l. c ∷ l) (unescape-str_escape escape (hex_digit (c % 16)) chars text e h.1))
      | inr isnt ↦ rw (isnt) (
          plain escape previous c (str_escape escape chars text)
            (or_neither (c == escape) (contains c chars)
              (or_neither (contains c (escape ∷ chars)) (ltb c 32 || ltb 126 c) isnt).0).0
          ∙ ap (λ l. c ∷ l) (unescape-str_escape escape c chars text e h.1))
    ]

-- A text of bytes that was escaped, whatever the characters to escape, is unescaped to itself, zeros included,
-- if the escape is no zero and none of the digits and the letters from a to f.
pub str_unescape-str_escape :
    (escape : ℕ) (chars text : List ℕ)
    → 1 ≤ escape
    → is_hex_digit escape ≡ false
    → AreBytes text
    → str_unescape escape (str_escape escape chars text) ≡ text
unfolding str_unescape
str_unescape-str_escape escape chars text some_escape e h =
    ap (unescape_loop escape 0 0) (c_str-str_escape escape chars text some_escape)
    ∙ unescape-str_escape escape 0 chars text e h
