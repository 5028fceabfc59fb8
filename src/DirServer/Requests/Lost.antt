-- ===== src/DirServer/Requests/Lost.antt =====
-- lab6/server.c, `do_work`: clients that are never let go.
use syssoft_labs.Prelude.{
  ℕ, zero, suc, ◌+◌, ◌≡◌, ◌≢◌, ◌∙◌, inl, inr, Bool-cases, false, List, [], ◌∷◌, ◌++◌, length, map,
  ◌<◌, arith, All, replicate,
}
use syssoft_labs.Prelude.CString.{CString, bytes}
use syssoft_labs.Prelude.Io.{got, end_of_file}
use syssoft_labs.DirServer.Requests.{
  waits, Buffer, Environment, read_line, holds, close_request, serve_requests, do_work,
}
use syssoft_labs.DirServer.Requests.Receive.{HasRoom}
use syssoft_labs.DirServer.Requests.Text.{IsGranted, add_byte-Keeps, Stands-holds}
use syssoft_labs.DirServer.Requests.Protocol.{
  IsRequest, start, close-IsPath, read_request, reply-IsPath, serve-request, length-sent,
}
use syssoft_labs.DirServer.Client.{sent}

read_line-end_of_file :
    (r : Environment) (n c len : ℕ) (b : Buffer)
    → IsGranted r
    → c ≢ 0x0a
    → HasRoom len b
    → read_line r (replicate n end_of_file) c len b ≡ waits
unfolding read_line
read_line-end_of_file r zero c len b g h q = ground (arith, h)
read_line-end_of_file r (suc n) c len b g h q =
    let (b', e, k) = add_byte-Keeps r c len b g q in
    ground (arith, h, e, read_line-end_of_file r n c (len + 1) b' g h k.1)

-- The first line, as far as it comes.
read_line-cut :
    (r : Environment) (d : CString) (n c len : ℕ) (b : Buffer)
    → IsGranted r
    → All (λ e. e ≢ 0x0a) d
    → c ≢ 0x0a
    → HasRoom len b
    → read_line r (map got d ++ replicate n end_of_file) c len b ≡ waits
unfolding read_line
read_line-cut r [] n c len b g a h q = read_line-end_of_file r n c len b g h q
read_line-cut r (x ∷ d) n c len b g a h q =
    let (b', e, k) = add_byte-Keeps r x len b g q in
    ground (arith, h, e, read_line-cut r d n x (len + 1) b' g a.1 a.0 k.1)

serve-cut :
    (rounds : ℕ → Environment) (d : CString) (n fuel : ℕ)
    → IsGranted (rounds 0)
    → All (λ e. e ≢ 0x0a) d
    → 0 < fuel
    → serve_requests rounds fuel 0 (map got d ++ replicate n end_of_file) ≡ waits
unfolding serve_requests
serve-cut rounds d n zero g a l = absurd (omega (arith, l))
serve-cut rounds d n (suc fuel) g a l = ground (
  arith,
  g.0,
  read_line-cut (rounds 0) d n 0 0 (start (rounds 0)) g a (omega arith) (omega arith),
)

-- A client that closes its side in its first line, whatever bytes of it were sent, is never let go:
-- however often `read` then answers 0, as long as memory is granted, `do_work` calls it again.
pub do_work-end_of_file :
    (rounds : ℕ → Environment) (d : CString) (n : ℕ)
    → IsGranted (rounds 0)
    → All (λ e. e ≢ 0x0a) d
    → do_work rounds (map got d ++ replicate n end_of_file) ≡ waits
unfolding do_work
do_work-end_of_file rounds d n g a =
    serve-cut rounds d n (length (map got d ++ replicate n end_of_file) + 1) g a (omega arith)

-- The NUL behind the request to close begins a request that never ends.
serve-nul :
    (rounds : ℕ → Environment) (fuel k : ℕ)
    → IsGranted (rounds k)
    → serve_requests rounds (suc fuel) k (got 0x00 ∷ []) ≡ waits
unfolding serve_requests read_line
serve-nul rounds fuel k g =
    let (b, e, h) = add_byte-Keeps (rounds k) 0x00 0 (start (rounds k)) g (omega arith) in
    ground (arith, g.0, e)

missed : (b : Buffer) → b.cell 8 ≢ 0 → holds close_request 0 b ≡ false
missed b z = elim (Bool-cases (holds close_request 0 b)) [
  | inl e ↦ absurd (z (Stands-holds close_request 0 b e).1)
  | inr e ↦ e
]

serve-missed :
    (rounds : ℕ → Environment) (fuel k : ℕ)
    → ((j : ℕ) → IsGranted (rounds j))
    → (rounds k).junk 8 ≢ 0
    → serve_requests rounds (suc (suc fuel)) k (map got (bytes "//close" ++ 0x0a ∷ 0x00 ∷ []))
      ≡ waits
unfolding serve_requests
serve-missed rounds fuel k g z =
    let (b, e, h, j, room) =
      read_request (rounds k) (0x00 ∷ []) (bytes "//close") (g k) close-IsPath in
    let kept : b.cell 8 ≢ 0 = ground (arith, z, j (omega arith)) in
    let replied = reply-IsPath (rounds k) (bytes "//close") b close-IsPath (missed b kept) h room in
    ground (arith, (g k).0, e, replied, serve-nul rounds fuel (k + 1) (g (k + 1)))

serve-sent_missed :
    (rounds : ℕ → Environment) (ds : List CString) (fuel k : ℕ)
    → ((j : ℕ) → IsGranted (rounds j))
    → All IsRequest ds
    → (rounds (k + length ds)).junk 8 ≢ 0
    → suc (length ds) < fuel
    → serve_requests rounds fuel k (map got (sent ds)) ≡ waits
unfolding sent
serve-sent_missed rounds ds zero k g q z l = absurd (omega (arith, l))
serve-sent_missed rounds [] (suc zero) k g q z l = absurd (omega (arith, l))
serve-sent_missed rounds [] (suc (suc fuel)) k g q z l =
    serve-missed rounds fuel k g (ground (arith, z))
serve-sent_missed rounds (d ∷ ds) (suc fuel) k g q z l =
    serve-request rounds fuel k (sent ds) d (g k) q.0
    ∙ ground (
      arith,
      serve-sent_missed rounds ds fuel (k + 1) g q.1 (ground (arith, z)) (omega (arith, l)),
    )

-- If the byte behind the last line is not 0 in the buffer, `do_work` does not see the client's request
-- to close: with everything read that the client sends, it waits for more.
pub do_work-sent_missed :
    (rounds : ℕ → Environment) (ds : List CString)
    → ((j : ℕ) → IsGranted (rounds j))
    → All IsRequest ds
    → (rounds (length ds)).junk 8 ≢ 0
    → do_work rounds (map got (sent ds)) ≡ waits
unfolding do_work
do_work-sent_missed rounds ds g q z =
    serve-sent_missed rounds ds (length (map got (sent ds)) + 1) 0 g q (ground (arith, z))
      (omega (arith, length-sent ds))
