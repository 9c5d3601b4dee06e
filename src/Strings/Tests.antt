-- ===== src/Strings/Tests.antt =====
-- Concrete strings for base/strutil.cc.
use whisperlib.Prelude.{ℕ, ◌≡◌, refl, not, ◌&&◌, List, [], ◌∷◌, arith}
use whisperlib.Strings.Escape.{str_escape, str_unescape, str_unescape-str_escape}
use whisperlib.Strings.Next.{
  next_of, next_in_order, is_below, ltb_str, starts_with, next_in_order-between,
}

-- "a%,", a newline and a zero, with % as the escape and the comma to be escaped.
abbrev text : List ℕ
text = 97 ∷ 37 ∷ 44 ∷ 10 ∷ 0 ∷ []

str_unescape-str_escape_example : str_unescape 37 (str_escape 37 (44 ∷ []) text) ≡ text
str_unescape-str_escape_example =
    str_unescape-str_escape 37 (44 ∷ []) text (omega arith) refl
      (omega arith, (omega arith, (omega arith, (omega arith, (omega arith, tt)))))

-- The string after "a\xff" is "b".
next_of_run : next_in_order (97 ∷ 255 ∷ []) ≡ 98 ∷ []
unfolding next_in_order next_of
next_of_run = refl

next_in_order-between_example :
    (is_below (97 ∷ 255 ∷ 3 ∷ []) (next_in_order (97 ∷ 255 ∷ []))
      && not (ltb_str (97 ∷ 255 ∷ 3 ∷ []) (97 ∷ 255 ∷ [])))
    ≡ starts_with (97 ∷ 255 ∷ []) (97 ∷ 255 ∷ 3 ∷ [])
next_in_order-between_example =
    next_in_order-between (97 ∷ 255 ∷ []) (97 ∷ 255 ∷ 3 ∷ [])
      (omega arith, (omega arith, (omega arith, tt)))
