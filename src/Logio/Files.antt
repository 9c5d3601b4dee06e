-- ===== src/Logio/Files.antt =====
-- The directory of a log of io/logio/logio.cc: the contents of its numbered files, of which any may be
-- missing. The files that do not belong to the log are left out.
use whisperlib.Prelude.{
  ℕ, zero, suc, ◌+◌, ◌-◌, ◌≤◌, ◌≡◌, refl, sym, ap, ◌∙◌, Option, none, some, List, [], ◌∷◌, ◌++◌,
  length, length-append, take, take-append, replicate, arith,
}
use mathlib.Core.List.{append_assoc, append-nil}

-- The files 0, 1, ... up to the last one that there is.
abbrev pub Files : Type 0
Files = List (Option (List ℕ))

-- What a file holds once it is opened with OPEN_ALWAYS, which makes a missing one.
abbrev pub bytes_in : Option (List ℕ) → List ℕ
bytes_in none = []
bytes_in (some bytes) = bytes

abbrev pub bytes_of : (num : ℕ) → Files → List ℕ
bytes_of num [] = []
bytes_of zero (file ∷ files) = bytes_in file
bytes_of (suc num) (file ∷ files) = bytes_of num files

abbrev pub put_file : (num : ℕ) → List ℕ → Files → Files
put_file zero bytes [] = some bytes ∷ []
put_file zero bytes (file ∷ files) = some bytes ∷ files
put_file (suc num) bytes [] = none ∷ put_file num bytes []
put_file (suc num) bytes (file ∷ files) = file ∷ put_file num bytes files

-- ftruncate: a shorter file grows with zeros.
abbrev pub truncate : (size : ℕ) → List ℕ → List ℕ
truncate size bytes = take size bytes ++ replicate (size - length bytes) 0

-- All bytes of the log.
abbrev pub all_bytes : Files → List ℕ
all_bytes [] = []
all_bytes (file ∷ files) = bytes_in file ++ all_bytes files

-- Every file satisfies P.
abbrev pub Each : (List ℕ → Type 0) → Files → Type 0
Each P [] = Unit {0}
Each P (file ∷ files) = P (bytes_in file) × Each P files

pub bytes_of-put_file :
    (num : ℕ) (bytes : List ℕ) (files : Files) → bytes_of num (put_file num bytes files) ≡ bytes
bytes_of-put_file zero bytes [] = refl
bytes_of-put_file zero bytes (file ∷ files) = refl
bytes_of-put_file (suc num) bytes [] = bytes_of-put_file num bytes []
bytes_of-put_file (suc num) bytes (file ∷ files) = bytes_of-put_file num bytes files

-- There is no file after the one with this number.
abbrev pub IsLast : (num : ℕ) → Files → Type 0
IsLast num files = length files ≤ num + 1

pub put_file-IsLast :
    (num : ℕ) (bytes : List ℕ) (files : Files)
    → IsLast num files
    → length (put_file num bytes files) ≡ num + 1
put_file-IsLast zero bytes [] h = refl
put_file-IsLast zero bytes (file ∷ []) h = refl
put_file-IsLast zero bytes (file ∷ next ∷ files) h = absurd (omega (arith, h))
put_file-IsLast (suc num) bytes [] h = omega (arith, put_file-IsLast num bytes [] (omega arith))
put_file-IsLast (suc num) bytes (file ∷ files) h =
    omega (arith, put_file-IsLast num bytes files (omega (arith, h)))

-- The end of the last file is the end of the log.
pub all_bytes-put_file :
    (num : ℕ) (new : List ℕ) (files : Files)
    → IsLast num files
    → all_bytes (put_file num (bytes_of num files ++ new) files) ≡ all_bytes files ++ new
all_bytes-put_file zero new [] h = append-nil new
all_bytes-put_file zero new (file ∷ []) h =
    append-nil (bytes_in file ++ new) ∙ ap (λ l. l ++ new) (sym (append-nil (bytes_in file)))
all_bytes-put_file zero new (file ∷ next ∷ files) h = absurd (omega (arith, h))
all_bytes-put_file (suc num) new [] h = all_bytes-put_file num new [] (omega arith)
all_bytes-put_file (suc num) new (file ∷ files) h =
    ap (λ l. bytes_in file ++ l) (all_bytes-put_file num new files (omega (arith, h)))
    ∙ sym (append_assoc (bytes_in file) (all_bytes files) new)

pub Each-put_file :
    (P : List ℕ → Type 0) (num : ℕ) (bytes : List ℕ) (files : Files)
    → P []
    → P bytes
    → Each P files
    → Each P (put_file num bytes files)
Each-put_file P zero bytes [] e h k = (h, tt)
Each-put_file P zero bytes (file ∷ files) e h k = (h, k.1)
Each-put_file P (suc num) bytes [] e h k = (e, Each-put_file P num bytes [] e h tt)
Each-put_file P (suc num) bytes (file ∷ files) e h k =
    (k.0, Each-put_file P num bytes files e h k.1)

pub Each-bytes_of :
    (P : List ℕ → Type 0) (num : ℕ) (files : Files) → P [] → Each P files → P (bytes_of num files)
Each-bytes_of P num [] e k = e
Each-bytes_of P zero (file ∷ files) e k = k.0
Each-bytes_of P (suc num) (file ∷ files) e k = Each-bytes_of P num files e k.1

-- A file that is put back as it is.
pub all_bytes-put_same :
    (num : ℕ) (files : Files)
    → IsLast num files
    → all_bytes (put_file num (bytes_of num files) files) ≡ all_bytes files
all_bytes-put_same num files h =
    ap (λ l. all_bytes (put_file num l files)) (sym (append-nil (bytes_of num files)))
    ∙ all_bytes-put_file num [] files h
    ∙ append-nil (all_bytes files)

pub bytes_of-beyond : (num : ℕ) (files : Files) → length files ≤ num → bytes_of num files ≡ []
bytes_of-beyond num [] h = refl
bytes_of-beyond zero (file ∷ files) h = absurd (omega (arith, h))
bytes_of-beyond (suc num) (file ∷ files) h = bytes_of-beyond num files (omega (arith, h))

-- Bytes after the first ones are cut off again.
pub truncate-append : (xs ys : List ℕ) → truncate (length xs) (xs ++ ys) ≡ xs
truncate-append xs ys =
    let none_missing : length xs - length (xs ++ ys) ≡ 0 = omega (arith, length-append xs ys) in
    ap (λ l. l ++ replicate (length xs - length (xs ++ ys)) 0) (take-append (length xs) xs ys refl)
    ∙ ap (λ n. xs ++ replicate n 0) none_missing
    ∙ append-nil xs
