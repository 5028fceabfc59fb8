-- ===== src/Kcsh/Editor/Keys.antt =====
-- lab4/io.c, `get_line`: each key changes the line as it changes a text with a cursor.
use syssoft_labs.Prelude.{
  ℕ, ◌+◌, ◌-◌, ◌≤◌, ◌<◌, ◌≡◌, ◌≢◌, refl, ◌&&◌, [], ◌∷◌, length, replicate, ◌++◌, ltb, leb, ◌==◌,
  arith, if◌then◌else◌, ◌∙◌, ℕ_discrete, sym,
}
use syssoft_labs.Prelude.CString.{byte_at}
use syssoft_labs.Prelude.Family.{update}
use syssoft_labs.Kcsh.Outcome.{ok}
use syssoft_labs.Kcsh.Editor.{
  Editor, backspace, left, right, insert, strshl, slice, shorter, longer, redraw,
}
use syssoft_labs.Kcsh.Editor.Memory.{IsString, string_at_lem, shift_left_lem, strshr_lem}
use syssoft_labs.Kcsh.Editor.Text.{
  Text, char, rub_out, go_left, go_right, apply_key, byte_at-insert_at, byte_at-remove_at,
  length-insert_at, length-remove_at, IsText, insert_at-IsText, remove_at-IsText, byte_at-IsText,
  byte_at-length,
}

-- The line holds the text and zeros behind it, and `pos` is the cursor.
pub record Shows (ed : Editor) (t : Text) : Type 0 where
  pub pos : ed.pos ≡ t.cursor
  pub len : ed.length ≡ length t.text
  pub inside : t.cursor ≤ length t.text
  pub line : (i : ℕ) → ed.line i ≡ byte_at t.text i
  pub text : IsText t.text
  pub fits : length t.text < 1024

Shows-IsString :
    (ed : Editor) (t : Text) → Shows ed t → IsString ed.line ed.pos (ed.length - ed.pos)
Shows-IsString ed t s = record {
  text = λ i h e.
      byte_at-IsText t.text (ed.pos + i) s.text (omega (arith, h, s.len))
        (sym (s.line (ed.pos + i)) ∙ e);
  nul =
      s.line (ed.pos + (ed.length - ed.pos))
      ∙ byte_at-length t.text (ed.pos + (ed.length - ed.pos))
          (omega (arith, s.len, s.pos, s.inside));
}

pub left-Shows : (ed : Editor) (t : Text) → Shows ed t → Shows (left ed) (apply_key go_left t)
unfolding left apply_key
left-Shows ed t s = record {
  pos = ground (arith, s.pos, s.inside);
  len = ground (arith, s.len);
  inside = ground (arith, s.inside);
  line = λ i. ground (arith, s.line i);
  text = s.text;
  fits = s.fits;
}

pub right-Shows : (ed : Editor) (t : Text) → Shows ed t → Shows (right ed) (apply_key go_right t)
unfolding right apply_key
right-Shows ed t s = record {
  pos = ground (arith, s.pos, s.len);
  len = ground (arith, s.len);
  inside = ground (arith, s.inside, s.pos, s.len);
  line = λ i. ground (arith, s.line i, s.pos, s.len);
  text = ground (arith, s.text);
  fits = ground (arith, s.fits);
}

removed :
    (ed ed' : Editor) (t : Text)
    → Shows ed t
    → 0 < t.cursor
    → ed'.pos ≡ ed.pos - 1
    → ed'.length ≡ ed.length - 1
    → ((i : ℕ) → ed'.line i ≡ (if ltb i (ed.pos - 1) then ed.line i else ed.line (i + 1)))
    → Shows ed' (apply_key rub_out t)
unfolding apply_key
removed ed ed' t s z p l b =
    let within : t.cursor - 1 < length t.text = omega (arith, s.inside, z) in
    let shorter = length-remove_at (t.cursor - 1) t.text within in
    record {
      pos = ground (arith, p, s.pos, z);
      len = ground (arith, l, s.len, z, shorter);
      inside = ground (arith, s.inside, z, shorter);
      line = λ i. ground (
        arith,
        b i,
        s.pos,
        z,
        s.line i,
        s.line (i + 1),
        byte_at-remove_at (t.cursor - 1) t.text i within,
      );
      text = ground (arith, z, remove_at-IsText (t.cursor - 1) t.text s.text);
      fits = ground (arith, s.fits, z, shorter);
    }

stays : (t : Text) → t.cursor ≡ 0 → apply_key rub_out t ≡ t
unfolding apply_key
stays t z = ground (arith, z)

pub backspace-Shows :
    (ed : Editor) (t : Text)
    → Shows ed t
    → (ed' : Editor) × (backspace ed ≡ ok ed') × Shows ed' (apply_key rub_out t)
unfolding backspace strshl
backspace-Shows ed t s = elim (ℕ_discrete t.cursor 0) [
  | yes z ↦ (ed, ground (arith, s.pos, z), rw (stays t z) s)
  | no z ↦ elim (ℕ_discrete ed.pos ed.length) [
    | yes end ↦
        let line = update ed.line (ed.pos - 1) 0 in
        let ed' = shorter (0x08 ∷ b' ' ∷ 0x08 ∷ []) line ed in
        (
          ed',
          ground (arith, s.pos, z, end, s.fits, s.len),
          removed ed ed' t s (omega (arith, z)) refl refl λ i. ground (
            arith,
            end,
            s.len,
            s.line i,
            s.line (i + 1),
            λ (q : length t.text ≤ i). byte_at-length t.text i q,
            λ (q : length t.text ≤ i + 1). byte_at-length t.text (i + 1) q,
          ),
        )
    | no mid ↦
        let (line, e, b) =
          shift_left_lem (1024 - ed.pos) ed.pos (ed.length - ed.pos) ed.line (Shows-IsString ed t s)
            (omega (arith, s.fits, s.len, s.pos, s.inside)) (omega (arith, s.pos, z)) in
        let ed' = shorter (redraw ed) line ed in
        (
          ed',
          ground (arith, s.pos, z, mid, e),
          removed ed ed' t s (omega (arith, z)) refl refl λ i. ground (
            arith,
            b i,
            s.line i,
            s.line (i + 1),
            s.len,
            λ (q : length t.text ≤ i). byte_at-length t.text i q,
            λ (q : length t.text ≤ i + 1). byte_at-length t.text (i + 1) q,
          ),
        )
  ]
]

added :
    (c : ℕ) (ed ed' : Editor) (t : Text)
    → c ≢ 0
    → length t.text < 1023
    → Shows ed t
    → ed'.pos ≡ ed.pos + 1
    → ed'.length ≡ ed.length + 1
    → ((i : ℕ)
        → ed'.line i
          ≡ (if ltb i ed.pos then ed.line i else if i == ed.pos then c else ed.line (i - 1)))
    → Shows ed' (apply_key (char c) t)
unfolding apply_key
added c ed ed' t n h s p l b =
    let longer = length-insert_at t.cursor c t.text s.inside in
    record {
      pos = omega (arith, p, s.pos);
      len = omega (arith, l, s.len, longer);
      inside = omega (arith, s.inside, longer);
      line = λ i. ground (
        arith,
        b i,
        s.pos,
        s.line i,
        s.line (i - 1),
        byte_at-insert_at t.cursor c t.text i s.inside,
      );
      text = insert_at-IsText t.cursor c t.text n s.text;
      fits = omega (arith, h, longer);
    }

-- The bytes behind the cursor, with one more in front.
longer-IsString :
    (c p k : ℕ) (line line' : ℕ → ℕ)
    → c ≢ 0
    → IsString line p k
    → ((i : ℕ)
        → line' i ≡ (
            if ltb p i && leb i (p + k)
            then line (i - 1)
            else if i == p + k + 1
            then 0
            else line i))
    → IsString (update line' p c) p (k + 1)
longer-IsString c p k line line' n s b = record {
  text = λ i h. elim (ℕ_discrete i 0) [
    | yes z ↦ ground (arith, n, z)
    | no z ↦ λ e. s.text (i - 1) (omega (arith, h, z)) (ground (arith, b (p + i), e, z, h))
  ];
  nul = ground (arith, b (p + k + 1));
}

pub insert-Shows :
    (c : ℕ) (ed : Editor) (t : Text)
    → c ≢ 0
    → length t.text < 1023
    → Shows ed t
    → (ed' : Editor) × (insert c ed ≡ ok ed') × Shows ed' (apply_key (char c) t)
unfolding insert
insert-Shows c ed t n h s = elim (ℕ_discrete ed.pos ed.length) [
  | yes end ↦
      let line = update ed.line ed.pos c in
      let ed' = longer (if c == 0 then [] else c ∷ []) line ed in
      (
        ed',
        ground (arith, end, s.len, h),
        added c ed ed' t n h s refl refl λ i. ground (
          arith,
          end,
          s.len,
          s.line i,
          s.line (i - 1),
          λ (q : length t.text ≤ i). byte_at-length t.text i q,
          λ (q : length t.text ≤ i - 1). byte_at-length t.text (i - 1) q,
        ),
      )
  | no mid ↦
      let k = ed.length - ed.pos in
      let str = Shows-IsString ed t s in
      let (shifted, e, b) =
        strshr_lem ed.pos k ed.line str (omega (arith, h, s.len, s.pos, s.inside)) in
      let line = update shifted ed.pos c in
      let tail = slice (k + 1) ed.pos line in
      let ed' = longer (tail ++ replicate k 0x08) line ed in
      (
        ed',
        ground (
          arith,
          mid,
          e,
          s.pos,
          s.len,
          s.inside,
          h,
          string_at_lem (1024 - ed.pos) ed.pos (k + 1) line
              (longer-IsString c ed.pos k ed.line shifted n str b)
              (omega (arith, h, s.len, s.pos, s.inside)),
        ),
        added c ed ed' t n h s refl refl λ i. ground (
          arith,
          b i,
          s.len,
          s.pos,
          s.inside,
          s.line i,
          s.line (i - 1),
          λ (q : length t.text ≤ i). byte_at-length t.text i q,
          λ (q : length t.text ≤ i - 1). byte_at-length t.text (i - 1) q,
        ),
      )
]
