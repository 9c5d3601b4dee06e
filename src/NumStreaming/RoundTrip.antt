-- ===== src/NumStreaming/RoundTrip.antt =====
-- A number that io/num_streaming.h writes is read back.
use whisperlib.Prelude.{
  ℕ, zero, suc, ◌+◌, ◌*◌, ◌/◌, ◌<◌, ◌==◌, ◌≡◌, refl, sym, ap, ◌∙◌, true, some, List, [], ◌∷◌, ◌++◌,
  length, length-append, take, drop, take-append, drop-append, arith,
}
use mathlib.Core.List.{append_assoc, append-nil}
use whisperlib.Prelude.Outcome.{done}
use whisperlib.NumStreaming.{
  ByteOrder, big_endian, little_endian, swap_bytes, to_bytes, of_bytes, in_order, write_number,
  read_number, try_read_number, peek_number,
}

-- 256 ^ width
abbrev pub span : ℕ → ℕ
span zero = 1
span (suc width) = 256 * span width

swap-append : (xs ys : List ℕ) → swap_bytes (xs ++ ys) ≡ swap_bytes ys ++ swap_bytes xs
swap-append [] ys = sym (append-nil (swap_bytes ys))
swap-append (x ∷ xs) ys =
    ap (λ l. l ++ x ∷ []) (swap-append xs ys)
    ∙ append_assoc (swap_bytes ys) (swap_bytes xs) (x ∷ [])

swap-swap : (xs : List ℕ) → swap_bytes (swap_bytes xs) ≡ xs
swap-swap [] = refl
swap-swap (x ∷ xs) = swap-append (swap_bytes xs) (x ∷ []) ∙ ap (λ l. x ∷ l) (swap-swap xs)

length-swap : (xs : List ℕ) → length (swap_bytes xs) ≡ length xs
length-swap [] = refl
length-swap (x ∷ xs) = omega (arith, length-append (swap_bytes xs) (x ∷ []), length-swap xs)

in_order-twice : (order : ByteOrder) (xs : List ℕ) → in_order order (in_order order xs) ≡ xs
unfolding in_order
in_order-twice big_endian xs = swap-swap xs
in_order-twice little_endian xs = refl

length-in_order : (order : ByteOrder) (xs : List ℕ) → length (in_order order xs) ≡ length xs
unfolding in_order
length-in_order big_endian xs = length-swap xs
length-in_order little_endian xs = refl

pub length-to_bytes : (width n : ℕ) → length (to_bytes width n) ≡ width
unfolding to_bytes
length-to_bytes zero n = refl
length-to_bytes (suc width) n = ap suc (length-to_bytes width (n / 256))

of_bytes-to_bytes : (width n : ℕ) → n < span width → of_bytes (to_bytes width n) ≡ n
unfolding to_bytes of_bytes
of_bytes-to_bytes zero n h = omega (arith, h)
of_bytes-to_bytes (suc width) n h =
    omega (arith, h, of_bytes-to_bytes width (n / 256) (omega (arith, h)))

pub length-write_number :
    (order : ByteOrder) (width n : ℕ) (stream : List ℕ)
    → length (write_number order width n stream) ≡ length stream + width
unfolding write_number
length-write_number order width n stream = omega (
  arith,
  length-append stream (in_order order (to_bytes width n)),
  length-in_order order (to_bytes width n),
  length-to_bytes width n,
)

==_refl : (n : ℕ) → (n == n) ≡ true
==_refl n = ground arith

-- What is read of a stream that begins with the bytes of a number.
value_of :
    (order : ByteOrder) (width n : ℕ) (rest : List ℕ)
    → n < span width
    → of_bytes (in_order order (take width (write_number order width n [] ++ rest))) ≡ n
unfolding write_number
value_of order width n rest h =
    ap (λ l. of_bytes (in_order order l))
      (take-append width (in_order order (to_bytes width n)) rest
        (length-in_order order (to_bytes width n) ∙ length-to_bytes width n))
    ∙ ap of_bytes (in_order-twice order (to_bytes width n))
    ∙ of_bytes-to_bytes width n h

enough_bytes :
    (order : ByteOrder) (width n : ℕ) (rest : List ℕ)
    → (width == length (take width (write_number order width n [] ++ rest))) ≡ true
unfolding write_number
enough_bytes order width n rest =
    let l = length-in_order order (to_bytes width n) ∙ length-to_bytes width n in
    ap (λ x. width == length x) (take-append width (in_order order (to_bytes width n)) rest l)
    ∙ ap (λ x. width == x) l
    ∙ ==_refl width

rest_of :
    (order : ByteOrder) (width n : ℕ) (rest : List ℕ)
    → drop width (write_number order width n [] ++ rest) ≡ rest
unfolding write_number
rest_of order width n rest =
    drop-append width (in_order order (to_bytes width n)) rest
      (length-in_order order (to_bytes width n) ∙ length-to_bytes width n)

-- A number that fits its type is read back from the bytes that are written for it, in either byte order,
-- and what follows them stays in the stream; a peek gives the number and leaves the stream.
pub read_number-write_number :
    (order : ByteOrder) (width n : ℕ) (rest : List ℕ)
    → n < span width
    → (read_number order width (write_number order width n [] ++ rest) ≡ done (n, rest))
      × ((try_read_number order width (write_number order width n [] ++ rest) ≡ (some n, rest))
          × (peek_number order width (write_number order width n [] ++ rest) ≡ done n))
unfolding read_number try_read_number peek_number
read_number-write_number order width n rest h =
    let e = enough_bytes order width n rest in
    let v = value_of order width n rest h in
    let r = rest_of order width n rest in (rw (e, v, r), (rw (e, v, r), rw (e, v)))
