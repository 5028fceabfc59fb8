-- ===== src/DirServer/Requests/Text.antt =====
-- lab6/server.c, `do_work`: a line that is read stands in the buffer.
use syssoft_labs.Prelude.{
  ℕ, zero, suc, ◌+◌, ◌-◌, ◌*◌, ◌≤◌, ◌<◌, ◌≡◌, ◌≢◌, refl, ◌∙◌, true, some, List, [], ◌∷◌, ◌++◌,
  length, map, ltb, ◌==◌, if◌then◌else◌, arith, dec_lt,
}
use syssoft_labs.Prelude.CString.{CString, byte_at}
use syssoft_labs.Prelude.Family.{update}
use syssoft_labs.Prelude.Io.{Read, got}
use syssoft_labs.DirServer.Requests.{
  done, Buffer, Environment, add_byte, read_line, line_end, text_of, holds,
}
use syssoft_labs.DirServer.Requests.Receive.{HasRoom}

-- Every request for memory is granted.
abbrev pub IsGranted : Environment → Type 0
IsGranted r = (r.malloc_granted ≡ true) × ((n : ℕ) → r.realloc_granted n ≡ true)

-- The bytes of the buffer before `len` are kept, and behind them stands `d`.
abbrev pub Keeps : (len : ℕ) → CString → Buffer → Buffer → Type 0
Keeps len d b b' =
    ((i : ℕ)
      → i < len + length d
      → b'.cell i ≡ (if ltb i len then b.cell i else byte_at d (i - len)))
    × HasRoom (len + length d) b'
    × (len + length d + 3 ≤ b.size
        → (b'.size ≡ b.size) × ((i : ℕ) → len + length d ≤ i → b'.cell i ≡ b.cell i))

byte_at-cons :
    (c : ℕ) (d : CString) (k : ℕ) → byte_at (c ∷ d) k ≡ (if k == 0 then c else byte_at d (k - 1))
byte_at-cons c d zero = ground arith
byte_at-cons c d (suc k) = ground arith

pub add_byte-Keeps :
    (r : Environment) (c len : ℕ) (b : Buffer)
    → IsGranted r
    → HasRoom len b
    → (b' : Buffer) × (add_byte r c len b ≡ done (some b')) × Keeps len (c ∷ []) b b'
unfolding add_byte
add_byte-Keeps r c len b g h = elim (dec_lt (len + 3) b.size) [
  | yes room ↦ (
    record { size = b.size; cell = update b.cell len c },
    ground (arith, h, room),
    (
      λ i l. ground (arith, l, byte_at-cons c [] (i - len)),
      omega (arith, room),
      λ _. (refl, λ i l. ground (arith, l)),
    ),
  )
  | no full ↦ (
    record {
      size = b.size * 2;
      cell = λ i. if ltb i b.size then update b.cell len c i else r.junk i;
    },
    ground (arith, h, full, g.1 (len + 1)),
    (
      λ i l. ground (arith, l, h, byte_at-cons c [] (i - len)),
      omega (arith, h),
      λ l. absurd (omega (arith, l, full)),
    ),
  )
]

-- One byte, and then the others.
Keeps-cons :
    (c len : ℕ) (d : CString) (b b₁ b₂ : Buffer)
    → Keeps len (c ∷ []) b b₁
    → Keeps (len + 1) d b₁ b₂
    → Keeps len (c ∷ d) b b₂
Keeps-cons c len d b b₁ b₂ h k = (
  λ i l. ground (
    arith,
    l,
    k.0 i (omega (arith, l)),
    λ (q : i < len + 1). h.0 i (omega (arith, q)),
    byte_at-cons c [] (i - len),
    byte_at-cons c d (i - len),
  ),
  omega (arith, k.1),
  λ l.
      let (e, f) = h.2 (omega (arith, l)) in
      let (e', f') = k.2 (omega (arith, l, e)) in
      (e' ∙ e, λ i q. f' i (omega (arith, q)) ∙ f i (omega (arith, q))),
)

read_line-end :
    (r : Environment) (reads : List Read) (len : ℕ) (b : Buffer)
    → read_line r reads 0x0a len b ≡ done (some (len, b, reads))
unfolding read_line
read_line-end r [] len b = refl
read_line-end r (x ∷ reads) len b = refl

-- no end of line, and no NUL
abbrev pub IsPath : CString → Type 0
IsPath [] = Unit
IsPath (c ∷ d) = ((c ≢ 0x0a) × (c ≢ 0x0d) × (c ≢ 0x00)) × IsPath d

pub read_line-IsPath :
    (r : Environment) (left d : CString) (c len : ℕ) (b : Buffer)
    → IsGranted r
    → IsPath d
    → c ≢ 0x0a
    → HasRoom len b
    → (b' : Buffer) × (read_line r (map got (d ++ 0x0a ∷ left)) c len b
        ≡ done (some (len + length (d ++ 0x0a ∷ []), b', map got left)))
      × Keeps len (d ++ 0x0a ∷ []) b b'
unfolding read_line
read_line-IsPath r left [] c len b g p n h =
    let (b₁, e, k) = add_byte-Keeps r 0x0a len b g h in
    (b₁, ground (arith, n, e, read_line-end r (map got left) (len + 1) b₁), k)
read_line-IsPath r left (x ∷ d) c len b g p n h =
    let (b₁, e, k) = add_byte-Keeps r x len b g h in
    let (b₂, e', k') = read_line-IsPath r left d x (len + 1) b₁ g p.1 p.0.0 k.1 in
    (b₂, ground (arith, n, e, e'), Keeps-cons x len (d ++ 0x0a ∷ []) b b₁ b₂ k k')

-- From `i` on the buffer holds `d`.
abbrev pub Stands : CString → ℕ → Buffer → Type 0
Stands d i b = (k : ℕ) → k < length d → b.cell (i + k) ≡ byte_at d k

pub Stands-tail :
    (c : ℕ) (d : CString) (i : ℕ) (b : Buffer) → Stands (c ∷ d) i b → Stands d (i + 1) b
Stands-tail c d i b h k l = ground (arith, h (suc k) (omega (arith, l)))

pub text_of_lem : (d : CString) (i : ℕ) (b : Buffer) → Stands d i b → text_of (length d) i b ≡ d
unfolding text_of
text_of_lem [] i b h = refl
text_of_lem (c ∷ d) i b h =
    ground (arith, h 0 (omega arith), text_of_lem d (i + 1) b (Stands-tail c d i b h))

pub line_end_lem :
    (n : ℕ) (d : CString) (i : ℕ) (b : Buffer)
    → IsPath d
    → length d < n
    → Stands (d ++ 0x0a ∷ []) i b
    → line_end n i b ≡ some (i + length d)
unfolding line_end
line_end_lem zero d i b p l h = absurd (omega (arith, l))
line_end_lem (suc n) [] i b p l h = ground (arith, h 0 (omega arith))
line_end_lem (suc n) (c ∷ d) i b p l h = ground (
  arith,
  p.0,
  h 0 (omega arith),
  line_end_lem n d (i + 1) b p.1 (omega (arith, l)) (Stands-tail c (d ++ 0x0a ∷ []) i b h),
)

-- `strcmp` finds no difference exactly where the string and its NUL stand in the buffer.
pub holds-Stands :
    (cs : CString) (i : ℕ) (b : Buffer)
    → Stands cs i b
    → b.cell (i + length cs) ≡ 0
    → holds cs i b ≡ true
unfolding holds
holds-Stands [] i b h z = ground (arith, z)
holds-Stands (c ∷ cs) i b h z = ground (
  arith,
  h 0 (omega arith),
  holds-Stands cs (i + 1) b (Stands-tail c cs i b h) (ground (arith, z)),
)

pub Stands-holds :
    (cs : CString) (i : ℕ) (b : Buffer)
    → holds cs i b ≡ true
    → Stands cs i b × (b.cell (i + length cs) ≡ 0)
unfolding holds
Stands-holds [] i b h = (λ k l. absurd (omega (arith, l)), ground (arith, h))
Stands-holds (c ∷ cs) i b h =
    let first : b.cell i ≡ c = ground (arith, h) in
    let (stand, nul) = Stands-holds cs (i + 1) b (ground (arith, h)) in
    (
      λ k l.
          ground (arith, first, byte_at-cons c cs k, λ (q : k - 1 < length cs). stand (k - 1) q, l),
      ground (arith, nul),
    )

-- Two lines that stand at the same place are the same.
pub same_line :
    (d e : CString) (i : ℕ) (b : Buffer)
    → IsPath d
    → IsPath e
    → Stands (d ++ 0x0a ∷ []) i b
    → Stands (e ++ 0x0a ∷ []) i b
    → d ≡ e
same_line [] [] i b p q h k = refl
same_line [] (y ∷ e) i b p q h k =
    absurd (ground (arith, q.0, h 0 (omega arith), k 0 (omega arith)))
same_line (x ∷ d) [] i b p q h k =
    absurd (ground (arith, p.0, h 0 (omega arith), k 0 (omega arith)))
same_line (x ∷ d) (y ∷ e) i b p q h k = ground (
  arith,
  h 0 (omega arith),
  k 0 (omega arith),
  same_line d e (i + 1) b p.1 q.1 (Stands-tail x (d ++ 0x0a ∷ []) i b h)
      (Stands-tail y (e ++ 0x0a ∷ []) i b k),
)
