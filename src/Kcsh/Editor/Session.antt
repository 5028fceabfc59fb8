-- ===== src/Kcsh/Editor/Session.antt =====
-- lab4/io.c, `get_line`: a whole line, from its first key to the Return.
use syssoft_labs.Prelude.{
  ℕ, zero, suc, ◌+◌, ◌-◌, ◌≤◌, ◌<◌, ◌≡◌, ◌≢◌, refl, ◌&&◌, Bool, true, false, Option, some, List, [],
  ◌∷◌, ◌++◌, length, map, ltb, leb, ◌==◌, not, ◌||◌, arith, if◌then◌else◌, ◌∙◌, sym, subst, All,
}
use syssoft_labs.Prelude.CString.{CString, byte_at}
use syssoft_labs.Prelude.Family.{update}
use syssoft_labs.Kcsh.Outcome.{ok}
use syssoft_labs.Kcsh.Editor.{Editor, say, backspace, left, right, insert, enter, clean, slice}
use syssoft_labs.Kcsh.Editor.Loop.{key, next, edit, take_byte, press, arrow, get_line}
use syssoft_labs.Prelude.Io.{Read, got}
use syssoft_labs.Kcsh.Editor.Memory.{IsString, string_at_lem}
use syssoft_labs.Kcsh.Editor.Text.{
  Text, Key, char, rub_out, go_left, go_right, apply_key, length-insert_at, length-remove_at,
  IsText, byte_at-IsText,
}
use syssoft_labs.Kcsh.Editor.Keys.{Shows, left-Shows, right-Shows, backspace-Shows, insert-Shows}

-- what the terminal sends for a key
unfoldable pub sent : Key → List Read
sent (char c) = got c ∷ []
sent rub_out = got 0x7f ∷ []
sent go_left = got 0x1b ∷ got 0x5b ∷ got 0x44 ∷ []
sent go_right = got 0x1b ∷ got 0x5b ∷ got 0x43 ∷ []

unfoldable pub all_sent : List Key → List Read
all_sent [] = got 0x0a ∷ []
all_sent (k ∷ ks) = sent k ++ all_sent ks

-- a byte that the default case takes, the Return and the NUL left out
abbrev pub is_plain : ℕ → Bool
is_plain c =
    not (c == 0 || c == 0x03 || c == 0x04 || c == 0x09 || c == 0x0a || c == 0x1b || c == 0x7f)

abbrev pub IsPlain : Key → Type 0
IsPlain (char c) = is_plain c ≡ true
IsPlain _ = Unit

abbrev pub chars : List Key → ℕ
chars [] = 0
chars (char c ∷ ks) = suc (chars ks)
chars (_ ∷ ks) = chars ks

-- the text after the keys
unfoldable pub typed_text : List Key → Text → Text
typed_text [] t = t
typed_text (k ∷ ks) t = typed_text ks (apply_key k t)

-- a carriage return is replaced by a space
abbrev pub cleaned : CString → CString
cleaned = map (λ c. if c == 0x0a then b' ' else if c == 0x0d then b' ' else c)

abbrev wash : ℕ → ℕ
wash c = if c == 0x0a then b' ' else if c == 0x0d then b' ' else c

clean_lem :
    (n i : ℕ) (line : ℕ → ℕ) (j : ℕ)
    → clean n i line j ≡ (if leb i j && ltb j (i + n) then wash (line j) else line j)
unfolding clean
clean_lem zero i line j = ground arith
clean_lem (suc n) i line j = clean_lem n (i + 1) _ j ∙ ground arith

slice-byte_at :
    (xs : CString) (p : ℕ) (line : ℕ → ℕ)
    → ((i : ℕ) → i < length xs → line (p + i) ≡ byte_at xs i)
    → slice (length xs) p line ≡ xs
unfolding slice
slice-byte_at [] p line h = refl
slice-byte_at (x ∷ xs) p line h = ground (
  arith,
  h 0 (omega arith),
  slice-byte_at xs (p + 1) line (λ i l. ground (arith, h (i + 1) (omega (arith, l)))),
)

byte_at-cleaned :
    (xs : CString) (i : ℕ) → i < length xs → byte_at (cleaned xs) i ≡ wash (byte_at xs i)
byte_at-cleaned [] i h = absurd (omega (arith, h))
byte_at-cleaned (x ∷ xs) zero h = refl
byte_at-cleaned (x ∷ xs) (suc i) h = byte_at-cleaned xs i (omega (arith, h))

length-cleaned : (xs : CString) → length (cleaned xs) ≡ length xs
length-cleaned [] = refl
length-cleaned (x ∷ xs) = omega (arith, length-cleaned xs)

washed : (xs : CString) (i : ℕ) → IsText xs → i < length xs → wash (byte_at xs i) ≢ 0
washed xs i t h = ground (arith, byte_at-IsText xs i t h)

enter-Shows : (ed : Editor) (t : Text) → Shows ed t → enter ed ≡ ok (cleaned t.text)
unfolding enter
enter-Shows ed t s =
    let n = length t.text in
    let line = clean ed.length 0 (update ed.line ed.length 0) in
    let inner : ((i : ℕ) → i < n → line (0 + i) ≡ wash (byte_at t.text i)) = λ i h.
      clean_lem ed.length 0 (update ed.line ed.length 0) (0 + i)
      ∙ ground (arith, h, s.len, s.line i) in
    let str : IsString line 0 n = record {
      text = λ i h e. washed t.text i s.text h (sym (inner i h) ∙ e);
      nul = clean_lem ed.length 0 (update ed.line ed.length 0) (0 + n) ∙ ground (arith, s.len);
    } in
    let whole : slice n 0 line ≡ cleaned t.text =
      subst (λ k. slice k 0 line ≡ cleaned t.text) (length-cleaned t.text)
        (slice-byte_at (cleaned t.text) 0 line λ i h.
          let h' : i < n = omega (arith, h, length-cleaned t.text) in
          inner i h' ∙ sym (byte_at-cleaned t.text i h')) in
    ground (arith, s.len, s.fits, string_at_lem 1024 0 n line str s.fits, whole)

abbrev reset : Editor → Editor
reset ed = record ed { completion = false }

reset-Shows : (ed : Editor) (t : Text) → Shows ed t → Shows (reset ed) t
reset-Shows ed t s = record {
  pos = s.pos;
  len = s.len;
  inside = s.inside;
  line = s.line;
  text = s.text;
  fits = s.fits;
}

length-apply_key :
    (k : Key) (t : Text)
    → t.cursor ≤ length t.text
    → length (apply_key k t).text ≤ length t.text + chars (k ∷ [])
unfolding apply_key
length-apply_key (char c) t h = omega (arith, length-insert_at t.cursor c t.text h)
length-apply_key rub_out t h = ground (arith, h, length-remove_at (t.cursor - 1) t.text)
length-apply_key go_left t h = ground arith
length-apply_key go_right t h = ground arith

module _ (granted : ℕ → Bool) (first second : ℕ → CString → Option (List CString)) where
  press-char :
      (b round : ℕ) (ed ed' : Editor)
      → is_plain b ≡ true
      → insert b (reset ed) ≡ ok ed'
      → press granted first second round b ed ≡ ok (next key ed')
  unfolding press
  press-char b round ed ed' p e = ground (arith, p, e)

  press-rub_out :
      (round : ℕ) (ed ed' : Editor)
      → backspace (reset ed) ≡ ok ed'
      → press granted first second round 0x7f ed ≡ ok (next key ed')
  unfolding press
  press-rub_out round ed ed' e = ground (arith, e)

  edit-char :
      (b round c : ℕ) (ed ed' : Editor) (reads : List Read)
      → is_plain b ≡ true
      → insert b (reset ed) ≡ ok ed'
      → edit granted first second (got b ∷ reads) key round c ed
        ≡ edit granted first second reads key (round + 1) b ed'
  unfolding edit take_byte
  edit-char b round c ed ed' reads p e = ground (arith, press-char b round ed ed' p e)

  edit-rub_out :
      (round c : ℕ) (ed ed' : Editor) (reads : List Read)
      → backspace (reset ed) ≡ ok ed'
      → edit granted first second (got 0x7f ∷ reads) key round c ed
        ≡ edit granted first second reads key (round + 1) 0x7f ed'
  unfolding edit take_byte
  edit-rub_out round c ed ed' reads e = ground (arith, press-rub_out round ed ed' e)

  edit-go_left :
      (round c : ℕ) (ed : Editor) (reads : List Read)
      → edit granted first second (got 0x1b ∷ got 0x5b ∷ got 0x44 ∷ reads) key round c ed
        ≡ edit granted first second reads key (round + 3) 0x44 (left (reset ed))
  unfolding edit take_byte press arrow
  edit-go_left round c ed reads = ground arith

  edit-go_right :
      (round c : ℕ) (ed : Editor) (reads : List Read)
      → edit granted first second (got 0x1b ∷ got 0x5b ∷ got 0x43 ∷ reads) key round c ed
        ≡ edit granted first second reads key (round + 3) 0x43 (right (reset ed))
  unfolding edit take_byte press arrow
  edit-go_right round c ed reads = ground arith

  edit-enter :
      (round c : ℕ) (ed : Editor) (line : CString)
      → enter (reset ed) ≡ ok line
      → edit granted first second (got 0x0a ∷ []) key round c ed
        ≡ ok (line, say (0x0a ∷ []) (reset ed))
  unfolding edit take_byte press
  edit-enter round c ed line e = ground (arith, e)

  -- From any state that shows a text, the keys and a Return give the text that they edit.
  edit-all_sent :
      (ks : List Key) (round c : ℕ) (ed : Editor) (t : Text)
      → All IsPlain ks
      → length t.text + chars ks < 1024
      → Shows ed t
      → (ed' : Editor) × (edit granted first second (all_sent ks) key round c ed
          ≡ ok (cleaned (typed_text ks t).text, ed'))
  unfolding all_sent sent typed_text
  edit-all_sent [] round c ed t p l s =
      (_, edit-enter round c ed _ (enter-Shows (reset ed) t (reset-Shows ed t s)))
  edit-all_sent (char b ∷ ks) round c ed t p l s =
      let (ed₁, e, s₁) =
        insert-Shows b (reset ed) t (ground (arith, p.0)) (omega (arith, l)) (reset-Shows ed t s) in
      let (ed₂, e₂) =
        edit-all_sent ks (round + 1) b ed₁ (apply_key (char b) t) p.1
          (omega (arith, l, length-apply_key (char b) t s.inside)) s₁ in
      (ed₂, edit-char b round c ed ed₁ (all_sent ks) p.0 e ∙ e₂)
  edit-all_sent (rub_out ∷ ks) round c ed t p l s =
      let (ed₁, e, s₁) = backspace-Shows (reset ed) t (reset-Shows ed t s) in
      let (ed₂, e₂) =
        edit-all_sent ks (round + 1) 0x7f ed₁ (apply_key rub_out t) p.1
          (omega (arith, l, length-apply_key rub_out t s.inside)) s₁ in
      (ed₂, edit-rub_out round c ed ed₁ (all_sent ks) e ∙ e₂)
  edit-all_sent (go_left ∷ ks) round c ed t p l s =
      let (ed₂, e₂) =
        edit-all_sent ks (round + 3) 0x44 (left (reset ed)) (apply_key go_left t) p.1
          (omega (arith, l, length-apply_key go_left t s.inside))
          (left-Shows (reset ed) t (reset-Shows ed t s)) in
      (ed₂, edit-go_left round c ed (all_sent ks) ∙ e₂)
  edit-all_sent (go_right ∷ ks) round c ed t p l s =
      let (ed₂, e₂) =
        edit-all_sent ks (round + 3) 0x43 (right (reset ed)) (apply_key go_right t) p.1
          (omega (arith, l, length-apply_key go_right t s.inside))
          (right-Shows (reset ed) t (reset-Shows ed t s)) in
      (ed₂, edit-go_right round c ed (all_sent ks) ∙ e₂)

abbrev pub no_text : Text
no_text = record { text = []; cursor = 0 }

-- With memory granted, and whatever was typed before, a line of fewer than 1024 characters typed
-- with Backspace and the arrows, in any order, comes back as the text that these keys edit, with
-- every carriage return replaced by a space. Tab, the control keys and the NUL are left out.
pub get_line_lem :
    (granted : ℕ → Bool) (first second : ℕ → CString → Option (List CString)) (prompt : CString)
    (ed : Editor) (ks : List Key)
    → All IsPlain ks
    → chars ks < 1024
    → (ed' : Editor) × (get_line granted first second true (some prompt) ed (all_sent ks)
        ≡ ok (cleaned (typed_text ks no_text).text, ed'))
unfolding get_line
get_line_lem granted first second prompt ed ks p l =
    edit-all_sent granted first second ks 0 0
      (say prompt (record ed { line = λ _. 0; pos = 0; length = 0 })) no_text p (omega (arith, l))
      (record {
        pos = refl;
        len = refl;
        inside = omega arith;
        line = λ i. refl;
        text = tt;
        fits = omega arith;
      })
