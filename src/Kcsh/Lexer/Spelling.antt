-- ===== src/Kcsh/Lexer/Spelling.antt =====
-- lab4/parser.c: the splitting of tokens written out with spaces gives the tokens back.
use mathlib.Core.List.{append-nil, append_assoc}
use syssoft_labs.Prelude.{
  ℕ, zero, suc, ◌+◌, ◌<◌, ◌≡◌, refl, ap, ap₂, sym, ◌∙◌, inl, inr, true, false, List, [], ◌∷◌, ◌++◌,
  length, length-append, drop, All, arith,
}
use syssoft_labs.Prelude.CString.{CString}
use syssoft_labs.Kcsh.Outcome.{ok}
use syssoft_labs.Kcsh.Lexer.{
  is_space, is_separator, skip_spaces, word, get_arg, args_size, split, split_args,
}
use syssoft_labs.Kcsh.Lexer.Laws.{IsToken, is_plain}
use syssoft_labs.Kcsh.Lexer.Split.{all_granted, split-room, split-done, rest-shorter}

-- The tokens, each followed by a space.
abbrev pub spelled : List CString → CString
spelled [] = []
spelled (t ∷ ts) = t ++ b' ' ∷ spelled ts

word-append : (t r : CString) → All (λ d. is_plain d ≡ true) t → word (t ++ b' ' ∷ r) ≡ t
unfolding word
word-append [] r h = refl
word-append (c ∷ cs) r h = ground (arith, word-append cs r h.1)

get_arg-append : (c : ℕ) (t r : CString) → IsToken (c ∷ t) → get_arg (c ∷ (t ++ b' ' ∷ r)) ≡ c ∷ t
unfolding get_arg
get_arg-append c [] r (inl op) = rw op
get_arg-append c (d ∷ t) r (inl op) = absurd op
get_arg-append c t r (inr w) =
    let no_op : is_separator c ≡ false = ground arith in rw no_op (word-append (c ∷ t) r w)

drop-append : (t r : CString) → drop (length t) (t ++ r) ≡ r
drop-append [] r = refl
drop-append (c ∷ cs) r = drop-append cs r

lead-IsToken : (c : ℕ) (t : CString) → IsToken (c ∷ t) → is_space c ≡ false
lead-IsToken c [] (inl op) = ground arith
lead-IsToken c (d ∷ t) (inl op) = absurd op
lead-IsToken c t (inr w) = ground arith

skip_spaces-spelled : (ts : List CString) → All IsToken ts → skip_spaces (spelled ts) ≡ spelled ts
unfolding skip_spaces
skip_spaces-spelled [] h = refl
skip_spaces-spelled ([] ∷ ts) (inl op, h) = absurd op
skip_spaces-spelled ([] ∷ ts) (inr w, h) = absurd w
skip_spaces-spelled ((c ∷ t) ∷ ts) (h, hs) = rw (lead-IsToken c t h)

skip_spaces-cons : (cs : CString) → skip_spaces (b' ' ∷ cs) ≡ skip_spaces cs
unfolding skip_spaces
skip_spaces-cons cs = refl

skip_spaces-nil : (ts : List CString) → skip_spaces [] ≡ spelled ts → All IsToken ts → ts ≡ []
unfolding skip_spaces
skip_spaces-nil [] e a = refl
skip_spaces-nil ([] ∷ ts) e (inl x, a) = absurd x
skip_spaces-nil ([] ∷ ts) e (inr x, a) = absurd x
skip_spaces-nil ((c ∷ t) ∷ ts) e a = cc

split-nil : (fuel : ℕ) (vec : List CString) → split all_granted (suc fuel) [] vec ≡ ok vec
unfolding split
split-nil fuel vec = refl

-- The loop over a line that is `spelled ts` behind its spaces.
split-spelled :
    (fuel : ℕ) (line : CString) (ts vec : List CString)
    → length line < fuel
    → skip_spaces line ≡ spelled ts
    → All IsToken ts
    → length vec + length ts < args_size
    → split all_granted fuel line vec ≡ ok (vec ++ ts)
split-spelled zero line ts vec h e a r = absurd (omega arith)
split-spelled (suc fuel) [] ts vec h e a r =
    split-nil fuel vec ∙ ap ok (rw (skip_spaces-nil ts e a) (sym (append-nil vec)))
split-spelled (suc fuel) (c ∷ cs) [] vec h e a r =
    split-done fuel c cs vec e ∙ ap ok (sym (append-nil vec))
split-spelled (suc fuel) (c ∷ cs) ([] ∷ ts) vec h e (inl x, a) r = absurd x
split-spelled (suc fuel) (c ∷ cs) ([] ∷ ts) vec h e (inr x, a) r = absurd x
split-spelled (suc fuel) (c ∷ cs) ((d ∷ t) ∷ ts) vec h e a r =
    let line' : CString = b' ' ∷ spelled ts in
    let ds : CString = t ++ line' in
    let taken : get_arg (d ∷ ds) ≡ d ∷ t = get_arg-append d t (spelled ts) a.0 in
    let rest : drop (length (get_arg (d ∷ ds))) (d ∷ ds) ≡ line' = rw taken (drop-append t line') in
    let shorter : length line' < fuel = rw rest at (rest-shorter fuel c cs d ds e h) in
    split-room fuel c cs vec d ds e (omega arith)
    ∙ ap₂ (λ x y. split all_granted fuel x (vec ++ y ∷ [])) rest taken
    ∙ split-spelled fuel line' ts (vec ++ (d ∷ t) ∷ []) shorter
        (skip_spaces-cons (spelled ts) ∙ skip_spaces-spelled ts a.1) a.1
        (omega (arith, length-append vec ((d ∷ t) ∷ [])))
    ∙ ap ok (append_assoc vec ((d ∷ t) ∷ []) ts)

-- With memory granted, `split_args` of fewer than `ARGS_SIZE` tokens, written out with a space
-- behind each, gives these tokens back.
pub split_args-spelled :
    (ts : List CString)
    → All IsToken ts
    → length ts < args_size
    → split_args true all_granted (spelled ts) ≡ ok ts
unfolding split_args
split_args-spelled ts a r =
    split-spelled (length (spelled ts) + 1) (spelled ts) ts [] (omega arith)
      (skip_spaces-spelled ts a) a (omega arith)
