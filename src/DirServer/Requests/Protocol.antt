-- ===== src/DirServer/Requests/Protocol.antt =====
-- lab6/server.c and lab6/client.c: a client's directories are answered one by one.
use mathlib.Core.List.{append_assoc}
use syssoft_labs.Prelude.{
  ℕ, zero, suc, ◌+◌, ◌<◌, ◌≡◌, ◌≢◌, refl, ◌∙◌, sym, ap, inl, inr, Bool-cases, false, Option, none,
  some, List, [], ◌∷◌, ◌++◌, length, length-append, map, arith, All,
}
use syssoft_labs.Prelude.CString.{CString, bytes, byte_at}
use syssoft_labs.Prelude.Family.{update}
use syssoft_labs.Prelude.Io.{got}
use syssoft_labs.DirServer.Requests.{
  done, ◌>>=◌, Buffer, Environment, read_line, holds, listed, listing, answer, close_request, reply,
  store_byte, c_string, answer_buffer, serve_requests, do_work,
}
use syssoft_labs.DirServer.Requests.Receive.{HasRoom}
use syssoft_labs.DirServer.Requests.Text.{
  Stands-tail, IsGranted, IsPath, Stands, read_line-IsPath, line_end_lem, text_of_lem, holds-Stands,
  Stands-holds, same_line,
}
use syssoft_labs.DirServer.Client.{sent, read_answer, shown}

-- a line of a client that does not ask to close
abbrev pub IsRequest : CString → Type 0
IsRequest d = IsPath d × (d ≢ bytes "//close")

pub close-IsPath : IsPath (bytes "//close")
close-IsPath = ground arith

abbrev pub start : Environment → Buffer
start r = record { size = 1024; cell = r.junk }

-- what `do_work` answers to the directories, from request number `k` on
unfoldable pub answers : (rounds : ℕ → Environment) → (k : ℕ) → List CString → List CString
answers rounds k [] = []
answers rounds k (d ∷ ds) = answer (rounds k).opendir d d ∷ answers rounds (k + 1) ds

unfoldable pub joined : List CString → CString
joined [] = []
joined (s ∷ ss) = s ++ joined ss

byte_at-front : (d e : CString) (k : ℕ) → k < length d → byte_at (d ++ e) k ≡ byte_at d k
byte_at-front [] e k h = absurd (omega (arith, h))
byte_at-front (c ∷ d) e zero h = refl
byte_at-front (c ∷ d) e (suc k) h = byte_at-front d e k (omega (arith, h))

c_string-Stands :
    (n : ℕ) (d : CString) (i : ℕ) (b : Buffer)
    → IsPath d
    → Stands d i b
    → b.cell (i + length d) ≡ 0
    → length d < n
    → c_string n i b ≡ done d
unfolding c_string
c_string-Stands zero d i b p h z l = absurd (omega (arith, l))
c_string-Stands (suc n) [] i b p h z l = ground (arith, z)
c_string-Stands (suc n) (c ∷ d) i b p h z l = ground (
  arith,
  p.0,
  h 0 (omega arith),
  c_string-Stands n d (i + 1) b p.1 (Stands-tail c d i b h) (ground (arith, z)) (omega (arith, l)),
)

-- The directory stands in the buffer once its end of line is overwritten.
cut_line :
    (d : CString) (b : Buffer)
    → Stands (d ++ 0x0a ∷ []) 0 b
    → Stands d 0 (record b { cell = update b.cell (length d) 0 })
cut_line d b h k l =
    ground (
      arith,
      l,
      h k (omega (arith, l, length-append d (0x0a ∷ []))),
      byte_at-front d (0x0a ∷ []) k l,
    )

pub reply-IsPath :
    (r : Environment) (d : CString) (b : Buffer)
    → IsPath d
    → holds close_request 0 b ≡ false
    → Stands (d ++ 0x0a ∷ []) 0 b
    → HasRoom (length (d ++ 0x0a ∷ [])) b
    → reply r (length (d ++ 0x0a ∷ [])) b ≡ done (some (answer r.opendir d d))
unfolding reply store_byte answer_buffer
reply-IsPath r d b p e h room =
    let b' = record b { cell = update b.cell (length d) 0 } in
    let inside : length d < b.size = omega (arith, room, length-append d (0x0a ∷ [])) in
    ground (
      arith,
      e,
      inside,
      line_end_lem (length (d ++ 0x0a ∷ []) + 1) d 0 b p
          (omega (arith, length-append d (0x0a ∷ []))) h,
      text_of_lem d 0 b' (cut_line d b h),
      c_string-Stands b.size d 0 b' p (cut_line d b h) (ground arith) inside,
    )

not_close :
    (d : CString) (b : Buffer)
    → IsRequest d
    → Stands (d ++ 0x0a ∷ []) 0 b
    → holds close_request 0 b ≡ false
not_close d b (p, n) h = elim (Bool-cases (holds close_request 0 b)) [
  | inl e ↦
      absurd (
        n (same_line d (bytes "//close") 0 b p close-IsPath h (Stands-holds close_request 0 b e).0))
  | inr e ↦ e
]

pub read_request :
    (r : Environment) (left d : CString)
    → IsGranted r
    → IsPath d
    → (b : Buffer) × (read_line r (map got (d ++ 0x0a ∷ left)) 0 0 (start r)
        ≡ done (some (length (d ++ 0x0a ∷ []), b, map got left)))
      × Stands (d ++ 0x0a ∷ []) 0 b
      × (length (d ++ 0x0a ∷ []) < 1022
          → b.cell (length (d ++ 0x0a ∷ [])) ≡ r.junk (length (d ++ 0x0a ∷ [])))
      × HasRoom (length (d ++ 0x0a ∷ [])) b
read_request r left d g p =
    let (b, e, k) = read_line-IsPath r left d 0 0 (start r) g p (omega arith) (omega arith) in
    (
      b,
      ground (arith, e),
      λ i l. ground (arith, k.0 i (omega (arith, l))),
      λ l. ground (arith, (k.2 (omega (arith, l))).1 (length (d ++ 0x0a ∷ [])) (omega arith)),
      omega (arith, k.1),
    )

pub serve-request :
    (rounds : ℕ → Environment) (fuel k : ℕ) (left d : CString)
    → IsGranted (rounds k)
    → IsRequest d
    → serve_requests rounds (suc fuel) k (map got (d ++ 0x0a ∷ left)) ≡ (
        serve_requests rounds fuel (k + 1) (map got left) >>= λ rest.
        done (answer (rounds k).opendir d d ++ rest))
unfolding serve_requests
serve-request rounds fuel k left d g q =
    let (b, e, h, j, room) = read_request (rounds k) left d g q.0 in
    ground (arith, g.0, e, reply-IsPath (rounds k) d b q.0 (not_close d b q h) h room)

serve-close :
    (rounds : ℕ → Environment) (fuel k : ℕ) (left : CString)
    → IsGranted (rounds k)
    → (rounds k).junk 8 ≡ 0
    → serve_requests rounds (suc fuel) k (map got (bytes "//close" ++ 0x0a ∷ left)) ≡ done []
unfolding serve_requests reply
serve-close rounds fuel k left g z =
    let (b, e, h, j, room) = read_request (rounds k) left (bytes "//close") g close-IsPath in
    ground (arith, g.0, e, holds-Stands close_request 0 b h (ground (arith, z, j (omega arith))))

serve-sent :
    (rounds : ℕ → Environment) (ds : List CString) (fuel k : ℕ)
    → ((j : ℕ) → IsGranted (rounds j))
    → All IsRequest ds
    → (rounds (k + length ds)).junk 8 ≡ 0
    → length ds < fuel
    → serve_requests rounds fuel k (map got (sent ds)) ≡ done (joined (answers rounds k ds))
unfolding sent answers joined
serve-sent rounds ds zero k g q z l = absurd (omega (arith, l))
serve-sent rounds [] (suc fuel) k g q z l =
    serve-close rounds fuel k (0x00 ∷ []) (g k) (ground (arith, z))
serve-sent rounds (d ∷ ds) (suc fuel) k g q z l =
    serve-request rounds fuel k (sent ds) d (g k) q.0
    ∙ ground (arith, serve-sent rounds ds fuel (k + 1) g q.1 (ground (arith, z)) (omega (arith, l)))

length-got : (d xs : CString) → length (map got (d ++ xs)) ≡ length d + length (map got xs)
length-got [] xs = omega arith
length-got (c ∷ d) xs = omega (arith, length-got d xs)

pub length-sent : (ds : List CString) → length ds < length (map got (sent ds))
unfolding sent
length-sent [] = omega arith
length-sent (d ∷ ds) = omega (arith, length-got d (0x0a ∷ sent ds), length-sent ds)

-- a file name has no NUL
abbrev pub IsName : CString → Type 0
IsName [] = Unit
IsName (c ∷ cs) = (c ≢ 0x00) × IsName cs

IsName-append : (xs ys : CString) → IsName xs → IsName ys → IsName (xs ++ ys)
IsName-append [] ys h k = k
IsName-append (x ∷ xs) ys h k = (h.0, IsName-append xs ys h.1 k)

IsPath-IsName : (d : CString) → IsPath d → IsName d
IsPath-IsName [] h = tt
IsPath-IsName (c ∷ d) h = (h.0.2, IsPath-IsName d h.1)

read_answer-IsName :
    (xs rest : CString) → IsName xs → read_answer (xs ++ 0x00 ∷ rest) ≡ (xs ++ 0x00 ∷ [], rest)
unfolding read_answer
read_answer-IsName [] rest h = refl
read_answer-IsName (x ∷ xs) rest h = ground (arith, h.0, read_answer-IsName xs rest h.1)

listed-IsName : (names : List CString) → All IsName names → IsName (listed names)
unfolding listed
listed-IsName [] h = tt
listed-IsName (name ∷ names) h = (
  ground arith,
  IsName-append name (0x0a ∷ listed names) h.0 (ground arith, listed-IsName names h.1),
)

-- The names that `readdir` gives have no NUL.
abbrev pub IsNaming : Environment → Type 0
IsNaming r = (dir : CString) (names : List CString) → r.opendir dir ≡ some names → All IsName names

listing-IsName :
    (o : Option (List CString))
    → ((names : List CString) → o ≡ some names → All IsName names)
    → (body : CString) × (listing o ≡ body ++ 0x00 ∷ []) × IsName body
unfolding listing
listing-IsName none h = ((0x09 ∷ bytes "<error>") ++ 0x0a ∷ [], refl, ground arith)
listing-IsName (some names) h = (listed names, refl, listed-IsName names (h names refl))

answer-IsName :
    (r : Environment) (d : CString)
    → IsNaming r
    → IsPath d
    → (body : CString) × (answer r.opendir d d ≡ body ++ 0x00 ∷ []) × IsName body
unfolding answer
answer-IsName r d n p =
    let (body, e, h) = listing-IsName (r.opendir d) (n d) in
    (
      d ++ (b':' ∷ 0x0a ∷ body),
      ap (λ l. d ++ (b':' ∷ 0x0a ∷ l)) e ∙ sym (append_assoc d (b':' ∷ 0x0a ∷ body) (0x00 ∷ [])),
      IsName-append d (b':' ∷ 0x0a ∷ body) (IsPath-IsName d p) (ground arith, (ground arith, h)),
    )

read_answer-answer :
    (r : Environment) (d rest : CString)
    → IsNaming r
    → IsPath d
    → read_answer (answer r.opendir d d ++ rest) ≡ (answer r.opendir d d, rest)
read_answer-answer r d rest n p =
    let (body, e, h) = answer-IsName r d n p in
    ap (λ l. read_answer (l ++ rest)) e
    ∙ (ap read_answer (append_assoc body (0x00 ∷ []) rest)
        ∙ (read_answer-IsName body rest h ∙ ap (λ l. (l, rest)) (sym e)))

shown-joined :
    (rounds : ℕ → Environment) (k : ℕ) (ds : List CString)
    → ((j : ℕ) → IsNaming (rounds j))
    → All IsRequest ds
    → shown ds (joined (answers rounds k ds)) ≡ answers rounds k ds
unfolding shown answers joined
shown-joined rounds k [] n q = refl
shown-joined rounds k (d ∷ ds) n q = ground (
  arith,
  read_answer-answer (rounds k) d (joined (answers rounds (k + 1) ds)) (n k) q.0.0,
  shown-joined rounds (k + 1) ds n q.1,
)

-- With memory granted, for directories that are one line each, of which none is "//close", and file
-- names without a NUL: `do_work` answers what the client sends and returns, if the byte behind the
-- last line happens to be 0 in its buffer, and the client shows for each directory exactly the answer
-- to it.
pub do_work-sent :
    (rounds : ℕ → Environment) (ds : List CString)
    → ((j : ℕ) → IsGranted (rounds j))
    → ((j : ℕ) → IsNaming (rounds j))
    → All IsRequest ds
    → (rounds (length ds)).junk 8 ≡ 0
    → (out : CString) × (do_work rounds (map got (sent ds)) ≡ done out)
      × (shown ds out ≡ answers rounds 0 ds)
unfolding do_work
do_work-sent rounds ds g n q z = (
  joined (answers rounds 0 ds),
  serve-sent rounds ds (length (map got (sent ds)) + 1) 0 g q (ground (arith, z))
      (omega (arith, length-sent ds)),
  shown-joined rounds 0 ds n q,
)
