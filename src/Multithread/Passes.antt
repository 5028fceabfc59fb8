-- ===== src/Multithread/Passes.antt =====
-- lab5/multithread.c and lab5/multithread7.c: the bodies of `reverse` and `change_register`. A byte
-- is a number below 256, and a result that goes back into a `char` is reduced modulo 256.
use syssoft_labs.Prelude.{ℕ, zero, suc, ◌+◌, ◌-◌, ◌/◌, ◌%◌, Bool, leb, if◌then◌else◌, ◌&&◌}
use syssoft_labs.Multithread.Code.{Code, done, load, store, repeat}

-- the inner loop of `reverse`, `rounds` rounds from `i` on, and then `k`
unfoldable pub swaps : (len rounds i : ℕ) → Code → Code
swaps len zero i k = k
swaps len (suc n) i k =
    load i λ c. load (len - i - 1) λ d. store i d (store (len - i - 1) c (swaps len n (i + 1) k))

-- the body of `reverse` between `lock` and `unlock`
unfoldable pub reverse : (len : ℕ) → Code
reverse len = repeat 5 (swaps len (len / 2) 0) done

abbrev pub is_upper : ℕ → Bool
is_upper c = leb b'A' c && leb c b'Z'

abbrev pub is_lower : ℕ → Bool
is_lower c = leb b'a' c && leb c b'z'

-- `(c - 'A') + 'a'` and `(c - 'a') + 'A'`
abbrev pub lower : ℕ → ℕ
lower c = (c + 256 - b'A' + b'a') % 256

abbrev pub upper : ℕ → ℕ
upper c = (c + 256 - b'a' + b'A') % 256

-- One round of `change_register` in multithread.c. Each `toy[i]` of the source is a load.
unfoldable pub change : ℕ → Code → Code
change i k =
    let lowered = load i λ c. store i (lower c) k in
    let raised = load i λ c. store i (upper c) k in
    load i λ a. if leb b'A' a then (load i λ b. if leb b b'Z' then lowered else raised) else raised

-- the inner loop of `change_register`
unfoldable pub changes : (round : ℕ → Code → Code) → (rounds i : ℕ) → Code → Code
changes round zero i k = k
changes round (suc n) i k = round i (changes round n (i + 1) k)

-- the body of `change_register` between `lock` and `unlock`
unfoldable pub change_register : (len : ℕ) → Code
change_register len = repeat 5 (changes change len 0) done

-- One round of `change_register` in multithread7.c: a byte that is no letter stays.
unfoldable pub change_letter : ℕ → Code → Code
change_letter i k =
    let lowered = load i λ c. store i (lower c) k in
    let raised = load i λ a.
      if leb b'a' a
      then (load i λ b. if leb b b'z' then (load i λ c. store i (upper c) k) else k)
      else k in
    load i λ a. if leb b'A' a then (load i λ b. if leb b b'Z' then lowered else raised) else raised

unfoldable pub change_letters : (len : ℕ) → Code
change_letters len = repeat 5 (changes change_letter len 0) done
