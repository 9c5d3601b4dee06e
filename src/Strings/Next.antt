-- ===== src/Strings/Next.antt =====
-- GetNextInLexicographicOrder of base/strutil.cc.
use whisperlib.Prelude.{
  ℕ, zero, suc, ◌+◌, ◌≤◌, ◌<◌, ltb, ◌==◌, ==_iff, ◌≡◌, refl, sym, ap, ◌∙◌, subst, inl, inr, Bool,
  true, false, not, ◌&&◌, ◌||◌, Bool-cases, if◌then◌else◌, List, [], ◌∷◌, ◌++◌, length,
  length-append, arith,
}
use whisperlib.Strings.Escape.{AreBytes}

abbrev last_char : ℕ → List ℕ → ℕ
last_char c [] = c
last_char c (d ∷ text) = last_char d text

abbrev but_last : ℕ → List ℕ → List ℕ
but_last c [] = []
but_last c (d ∷ text) = c ∷ but_last d text

-- GetNextInLexicographicOrder, on fuel for its calls of itself.
unfoldable pub next_of : (fuel : ℕ) → List ℕ → List ℕ
next_of zero prefix = []
next_of (suc fuel) [] = []
next_of (suc fuel) (c ∷ text) =
    let shorter = next_of fuel (but_last c text) in
    if last_char c text == 255 then shorter else but_last c text ++ (last_char c text + 1) ∷ []

unfoldable pub next_in_order : List ℕ → List ℕ
next_in_order prefix = next_of (length prefix) prefix

-- operator< of strings of unsigned characters, and whether a string begins with another.
abbrev pub ltb_str : List ℕ → List ℕ → Bool
ltb_str a [] = false
ltb_str [] (y ∷ b) = true
ltb_str (x ∷ a) (y ∷ b) = ltb x y || not (ltb y x) && ltb_str a b

abbrev pub starts_with : (prefix : List ℕ) → List ℕ → Bool
starts_with [] text = true
starts_with (c ∷ prefix) [] = false
starts_with (c ∷ prefix) (d ∷ text) = c == d && starts_with prefix text

abbrev is_none : List ℕ → Bool
is_none [] = true
is_none (c ∷ text) = false

-- Below the next string, if there is one.
abbrev pub is_below : List ℕ → (next : List ℕ) → Bool
is_below text next = is_none next || ltb_str text next

-- The same from the front.
next_step : ℕ → List ℕ → List ℕ
next_step c [] = if c == 255 then [] else (c + 1) ∷ []
next_step c (d ∷ later) = c ∷ d ∷ later

next_front : List ℕ → List ℕ
next_front [] = []
next_front (c ∷ text) = next_step c (next_front text)

step_some : (a c : ℕ) (q : List ℕ) → next_step a (q ++ c ∷ []) ≡ a ∷ (q ++ c ∷ [])
unfolding next_step
step_some a c [] = refl
step_some a c (d ∷ q) = refl

next_front-last :
    (q : List ℕ) (c : ℕ)
    → next_front (q ++ c ∷ []) ≡ (if c == 255 then next_front q else q ++ (c + 1) ∷ [])
unfolding next_front next_step
next_front-last [] c = refl
next_front-last (a ∷ q) c = elim (Bool-cases (c == 255)) [
  | inl is ↦ ap (next_step a) (next_front-last q c) ∙ rw (is) refl
  | inr isnt ↦ ap (next_step a) (next_front-last q c) ∙ rw (isnt) (step_some a (c + 1) q)
]

but_last-last_char : (c : ℕ) (text : List ℕ) → but_last c text ++ last_char c text ∷ [] ≡ c ∷ text
but_last-last_char c [] = refl
but_last-last_char c (d ∷ text) = ap (λ l. c ∷ l) (but_last-last_char d text)

next_of-next_front :
    (fuel : ℕ) (text : List ℕ) → length text ≤ fuel → next_of fuel text ≡ next_front text
unfolding next_of next_front
next_of-next_front zero [] h = refl
next_of-next_front zero (c ∷ text) h = absurd (omega (arith, h))
next_of-next_front (suc fuel) [] h = refl
next_of-next_front (suc fuel) (c ∷ text) h =
    let whole = but_last-last_char c text in
    let size = length-append (but_last c text) (last_char c text ∷ []) in
    let same = ap (λ l. length l) whole in
    let shorter = next_of-next_front fuel (but_last c text) (omega (arith, size, same, h)) in
    ap (λ l. if last_char c text == 255 then l else but_last c text ++ (last_char c text + 1) ∷ [])
      shorter
    ∙ sym (next_front-last (but_last c text) (last_char c text))
    ∙ ap next_front whole

-- How two characters compare.
data Order (x c : ℕ) : Type 0 where
  below : ltb x c ≡ true → ltb c x ≡ false → (c == x) ≡ false → ltb x (c + 1) ≡ true → Order x c
  equal : ltb x c ≡ false → ltb c x ≡ false → (c == x) ≡ true → ltb x (c + 1) ≡ true → Order x c
  above : ltb x c ≡ false → ltb c x ≡ true → (c == x) ≡ false → ltb x (c + 1) ≡ false → Order x c

compare_chars : (x c : ℕ) → Order x c
compare_chars x c = elim (Bool-cases (ltb x c)) [
  | inl l ↦ below l (ground (arith, l)) (ground (arith, l)) (ground (arith, l))
  | inr l ↦ elim (Bool-cases (ltb c x)) [
    | inl g ↦ above l g (ground (arith, g)) (ground (arith, g))
    | inr g ↦ equal l g (ground (arith, l, g)) (ground (arith, l, g))
  ]
]

and_false : (b : Bool) → (b && false) ≡ false
and_false true = refl
and_false false = refl

later-between :
    (c x d : ℕ) (later cs xs : List ℕ)
    → Order x c
    → (is_below xs (d ∷ later) && not (ltb_str xs cs)) ≡ starts_with cs xs
    → (is_below (x ∷ xs) (c ∷ d ∷ later) && not (ltb_str (x ∷ xs) (c ∷ cs)))
      ≡ (c == x && starts_with cs xs)
later-between c x d later cs xs (below l g e n) hyp = rw (l, e) refl
later-between c x d later cs xs (equal l g e n) hyp = rw (l, g, e) hyp
later-between c x d later cs xs (above l g e n) hyp = rw (l, g, e) refl

end-between :
    (c x : ℕ) (cs xs : List ℕ)
    → Order x c
    → not (ltb_str xs cs) ≡ starts_with cs xs
    → (is_below (x ∷ xs) ((c + 1) ∷ []) && not (ltb_str (x ∷ xs) (c ∷ cs)))
      ≡ (c == x && starts_with cs xs)
end-between c x cs xs (below l g e n) hyp = rw (n, l, e) refl
end-between c x cs xs (equal l g e n) hyp = rw (n, l, g, e) hyp
end-between c x cs xs (above l g e n) hyp = rw (n, l, g, e, and_false (not (ltb (c + 1) x))) refl

last-between :
    (x : ℕ) (cs xs : List ℕ)
    → Order x 255
    → x < 256
    → not (ltb_str xs cs) ≡ starts_with cs xs
    → not (ltb_str (x ∷ xs) (255 ∷ cs)) ≡ (255 == x && starts_with cs xs)
last-between x cs xs (below l g e n) k hyp = rw (l, e) refl
last-between x cs xs (equal l g e n) k hyp = rw (l, g, e) hyp
last-between x cs xs (above l g e n) k hyp = absurd (ground (arith, g, k))

step-between :
    (c x : ℕ) (later cs xs : List ℕ)
    → x < 256
    → (is_below xs later && not (ltb_str xs cs)) ≡ starts_with cs xs
    → (is_below (x ∷ xs) (next_step c later) && not (ltb_str (x ∷ xs) (c ∷ cs)))
      ≡ (c == x && starts_with cs xs)
unfolding next_step
step-between c x [] cs xs k hyp = elim (Bool-cases (c == 255)) [
  | inl is ↦
      let same : 255 ≡ c = sym ((==_iff c 255).0 is) in
      rw (is) (
        subst (λ c. not (ltb_str (x ∷ xs) (c ∷ cs)) ≡ (c == x && starts_with cs xs)) same
          (last-between x cs xs (compare_chars x 255) k hyp))
  | inr isnt ↦ rw (isnt) (end-between c x cs xs (compare_chars x c) hyp)
]
step-between c x (d ∷ later) cs xs k hyp = later-between c x d later cs xs (compare_chars x c) hyp

front-between :
    (prefix text : List ℕ)
    → AreBytes text
    → (is_below text (next_front prefix) && not (ltb_str text prefix)) ≡ starts_with prefix text
unfolding next_front
front-between [] text h = refl
front-between (c ∷ prefix) [] h = and_false (is_below [] (next_step c (next_front prefix)))
front-between (c ∷ prefix) (x ∷ text) h =
    step-between c x (next_front prefix) prefix text h.0 (front-between prefix text h.1)

-- The strings of bytes that begin with a prefix are exactly those that are not less than the prefix and less
-- than the result in lexicographic order; if the result is empty (as for a prefix that is empty, or whose
-- characters are all 0xff), they are all that are not less than the prefix. So every longer string that
-- begins with the prefix lies between the two, against the comment in strutil.h.
pub next_in_order-between :
    (prefix text : List ℕ)
    → AreBytes text
    → (is_below text (next_in_order prefix) && not (ltb_str text prefix)) ≡ starts_with prefix text
unfolding next_in_order
next_in_order-between prefix text h =
    ap (λ l. is_below text l && not (ltb_str text prefix))
      (next_of-next_front (length prefix) prefix (omega arith))
    ∙ front-between prefix text h
