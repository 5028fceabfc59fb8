-- ===== src/DirServer/Requests.antt =====
-- lab6/server.c: `do_work`, the requests of one client. `reads` is what `read` gives, byte by byte.
-- What was written to the client is the result; a write is taken to succeed.
pub mod Receive
pub mod Text
pub mod Protocol
pub mod Lost
mod Tests
use syssoft_labs.Prelude.{
  ℕ, zero, suc, ◌+◌, ◌-◌, ◌*◌, Bool, true, false, Option, none, some, List, [], ◌∷◌, ◌++◌, length,
  ltb, leb, ◌==◌, ◌&&◌, ◌||◌, if◌then◌else◌,
}
use syssoft_labs.Prelude.CString.{CString, bytes}
use syssoft_labs.Prelude.Family.{update}
use syssoft_labs.Prelude.Io.{Read, got, end_of_file, failed}

-- How `do_work` ends: it returns, accesses memory outside of its buffer, or is still in `read` when
-- the reads given have been taken.
pub data Work {ℓ} (A : Type ℓ) : Type ℓ where
  done : A → Work A
  waits fault out_of_fuel : Work A

infixl 5 ◌>>=◌
abbrev pub ◌>>=◌ {ℓ κ} : {A : Type ℓ} {B : Type κ} → Work A → (A → Work B) → Work B
done a >>= k = k a
waits >>= k = waits
fault >>= k = fault
out_of_fuel >>= k = out_of_fuel

-- the block at `buf` of `buf_size` bytes
pub record Buffer : Type 0 where
  pub size : ℕ
  pub cell : ℕ → ℕ

-- What the system answers in the round of one request: whether `malloc` succeeds, and `realloc` at a
-- length; what new memory holds; and the names that `readdir` gives for a directory that opens.
pub record Environment : Type 0 where
  pub malloc_granted : Bool
  pub realloc_granted : ℕ → Bool
  pub junk : ℕ → ℕ
  pub opendir : CString → Option (List CString)

module _ (r : Environment) where
  -- `buf[len++] = c`, and the growth of the buffer; `none` is `goto clean`
  unfoldable pub add_byte : (c len : ℕ) → Buffer → Work (Option Buffer)
  add_byte c len b =
      if ltb len b.size
      then (let cell = update b.cell len c in
          if leb (b.size - (len + 1)) 2
          then (if r.realloc_granted (len + 1)
              then done (
                  some (record {
                    size = b.size * 2;
                    cell = λ i. if ltb i b.size then cell i else r.junk i;
                  }))
              else done none)
          else done (some (record { size = b.size; cell = cell })))
      else fault

  -- `c` behind a call of `read`, where `none` is an answer of -1
  abbrev pub received : Read → (c : ℕ) → Option ℕ
  received (got b) c = some b
  received end_of_file c = some c
  received failed c = none

  -- `while ('\n' != c)`: `len`, the buffer and the reads that are left; `none` is `goto clean`
  unfoldable pub read_line :
      List Read → (c len : ℕ) → Buffer → Work (Option (ℕ × Buffer × List Read))
  read_line [] c len b = if c == 0x0a then done (some (len, b, [])) else waits
  read_line (x ∷ reads) c len b = elim (c == 0x0a) [
    | true ↦ done (some (len, b, x ∷ reads))
    | false ↦ elim (received x c) [
      | none ↦ done none
      | some c' ↦ add_byte c' len b >>= λ o. elim o [
        | none ↦ done none
        | some b' ↦ read_line reads c' (len + 1) b'
      ]
    ]
  ]

-- `!strcmp(buf + i, str)`
unfoldable pub holds : CString → ℕ → Buffer → Bool
holds [] i b = b.cell i == 0
holds (c ∷ cs) i b = (b.cell i == c) && holds cs (i + 1) b

-- The loop that looks for the end of the line: where it breaks, with `rounds` to go.
unfoldable pub line_end : (rounds i : ℕ) → Buffer → Option ℕ
line_end zero i b = none
line_end (suc n) i b =
    let rest = line_end n (i + 1) b in
    if (b.cell i == 0x0a) || (b.cell i == 0x0d) then some i else rest

-- `buf[0] ... buf[count - 1]`
unfoldable pub text_of : (count i : ℕ) → Buffer → CString
text_of zero i b = []
text_of (suc n) i b = b.cell i ∷ text_of n (i + 1) b

unfoldable pub listed : List CString → CString
listed [] = []
listed (name ∷ names) = (0x09 ∷ name) ++ (0x0a ∷ listed names)

-- The part behind `opendir`. Both ends write the NUL that `sizeof` and the length 1 count in.
unfoldable pub listing : Option (List CString) → CString
listing none = (0x09 ∷ bytes "<error>") ++ (0x0a ∷ 0x00 ∷ [])
listing (some names) = listed names ++ 0x00 ∷ []

-- what is written for a request
unfoldable pub answer : (opendir : CString → Option (List CString)) → (text dir : CString) → CString
answer opendir text dir = text ++ (bytes ":" ++ 0x0a ∷ listing (opendir dir))

-- what is written at `clean`
abbrev pub server_error : CString
server_error = bytes "server error" ++ 0x00 ∷ []

abbrev pub close_request : CString
close_request = bytes "//close" ++ 0x0a ∷ []

-- `buf[i] = c`
unfoldable pub store_byte : (i c : ℕ) → Buffer → Work Buffer
store_byte i c b = if ltb i b.size then done (record b { cell = update b.cell i c }) else fault

-- The string at `buf + i`, with `left` bytes of the block from there on.
unfoldable pub c_string : (left i : ℕ) → Buffer → Work CString
c_string zero i b = fault
c_string (suc n) i b =
    let rest = c_string n (i + 1) b in
    if b.cell i == 0 then done [] else (rest >>= λ cs. done (b.cell i ∷ cs))

-- `write(client, buf, len)`, and `opendir(buf)` with what is written then
unfoldable pub answer_buffer : Environment → (len : ℕ) → Buffer → Work (Option CString)
answer_buffer r len b =
    c_string b.size 0 b >>= λ dir. done (some (answer r.opendir (text_of len 0 b) dir))

-- The body of the loop behind the line: the answer, or `none` where `do_work` returns.
unfoldable pub reply : Environment → ℕ → Buffer → Work (Option CString)
reply r len b = if holds close_request 0 b then done none else (elim (line_end (len + 1) 0 b) [
  | none ↦ answer_buffer r len b
  | some i ↦ store_byte i 0 b >>= answer_buffer r i
])

-- The loop of requests, from request number `k` on. Each takes at least one read.
unfoldable pub serve_requests : (rounds : ℕ → Environment) → (fuel k : ℕ) → List Read → Work CString
serve_requests rounds zero k reads = out_of_fuel
serve_requests rounds (suc fuel) k reads =
    let r = rounds k in
    elim r.malloc_granted [
      | false ↦ done server_error
      | true ↦ read_line r reads 0 0 (record { size = 1024; cell = r.junk }) >>= λ o. elim o [
        | none ↦ done server_error
        | some (len, b, left) ↦ reply r len b >>= λ p. elim p [
          | none ↦ done []
          | some out ↦ serve_requests rounds fuel (k + 1) left >>= λ rest. done (out ++ rest)
        ]
      ]
    ]

unfoldable pub do_work : (rounds : ℕ → Environment) → List Read → Work CString
do_work rounds reads = serve_requests rounds (length reads + 1) 0 reads
