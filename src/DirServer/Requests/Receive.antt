-- ===== src/DirServer/Requests/Receive.antt =====
-- lab6/server.c, `do_work`: the buffer is never left, and the loops end.
use syssoft_labs.Prelude.Family.{update}
use syssoft_labs.Prelude.{
  ℕ, zero, suc, ◌+◌, ◌≤◌, ◌<◌, ◌≡◌, ◌≢◌, refl, subst, Bool, true, false, Option, none, some, List,
  [], ◌∷◌, ◌++◌, length, ◌==◌, ◌||◌, ◌-◌, inl, inr, Bool-cases, lt→ltb, arith,
}
use syssoft_labs.Prelude.CString.{CString}
use syssoft_labs.Prelude.Io.{Read}
use syssoft_labs.DirServer.Requests.{
  Work, done, waits, fault, out_of_fuel, ◌>>=◌, Buffer, Environment, add_byte, received, read_line,
  reply, line_end, holds, close_request, store_byte, c_string, answer_buffer, server_error,
  serve_requests, do_work,
}

-- Room for two bytes more.
abbrev pub HasRoom : ℕ → Buffer → Type 0
HasRoom len b = len + 2 < b.size

-- `c` is the byte that was stored last, or 0 in front of the first one.
abbrev pub IsReady : (c len : ℕ) → Buffer → Type 0
IsReady c len b = HasRoom len b × (len ≡ 0 → c ≡ 0) × (len ≢ 0 → b.cell (len - 1) ≡ c)

-- `do_work` is in no trouble, and what it has so far satisfies `P`.
abbrev pub Safe {ℓ} : {A : Type ℓ} → (A → Type 0) → Work A → Type 0
Safe P (done a) = P a
Safe P waits = Unit
Safe P fault = true ≡ false
Safe P out_of_fuel = true ≡ false

bind-Safe {ℓ κ} :
    {A : Type ℓ} {B : Type κ} (Q : A → Type 0) (P : B → Type 0) (m : Work A) (k : A → Work B)
    → Safe Q m
    → ((a : A) → Q a → Safe P (k a))
    → Safe P (m >>= k)
bind-Safe Q P (done a) k h f = f a h
bind-Safe Q P waits k h f = tt
bind-Safe Q P fault k h f = h
bind-Safe Q P out_of_fuel k h f = h

-- Either branch, where its test holds.
branch-Safe {ℓ} :
    {A : Type ℓ} (P : A → Type 0) (t : Bool) (m n : Work A)
    → (t ≡ true → Safe P m)
    → (t ≡ false → Safe P n)
    → Safe P (elim t [ true ↦ m | false ↦ n ])
branch-Safe P true m n h k = h refl
branch-Safe P false m n h k = k refl

abbrev WhenSome {ℓ} : {A : Type ℓ} → (A → Type 0) → Option A → Type 0
WhenSome P none = Unit
WhenSome P (some a) = P a

add_byte-Safe :
    (r : Environment) (c len : ℕ) (b : Buffer)
    → HasRoom len b
    → Safe (WhenSome (IsReady c (len + 1))) (add_byte r c len b)
unfolding add_byte
add_byte-Safe r c len b h = ground (arith, h)

-- The reads that are left are fewer, unless the line had ended before; the line stands in the buffer.
abbrev Taken : List Read → (c : ℕ) → ℕ × Buffer × List Read → Type 0
Taken reads c q =
    (c ≢ 0x0a → length q.2 < length reads) × (length q.2 ≤ length reads) × IsReady 0x0a q.0 q.1

Taken-cons :
    (x : Read) (reads : List Read) (c c' : ℕ) (m : Work (Option (ℕ × Buffer × List Read)))
    → Safe (WhenSome (Taken reads c')) m
    → Safe (WhenSome (Taken (x ∷ reads) c)) m
Taken-cons x reads c c' (done none) h = tt
Taken-cons x reads c c' (done (some (len, b, left))) h =
    (λ _. omega (arith, h.1), omega (arith, h.1), h.2)
Taken-cons x reads c c' waits h = tt
Taken-cons x reads c c' fault h = h
Taken-cons x reads c c' out_of_fuel h = h

module _ (r : Environment) (x : Read) (reads : List Read) (c len : ℕ) (b : Buffer) where
  Rest : ℕ → Buffer → Type 0
  Rest c' b' = Safe (WhenSome (Taken reads c')) (read_line r reads c' (len + 1) b')

  appended :
      (c' : ℕ) (o : Option Buffer)
      → WhenSome (IsReady c' (len + 1)) o
      → ((b' : Buffer) → IsReady c' (len + 1) b' → Rest c' b')
      → Safe
          (WhenSome (Taken (x ∷ reads) c))
          (elim o [ none ↦ done none | some b' ↦ read_line r reads c' (len + 1) b' ])
  unfolding Rest
  appended c' none h f = tt
  appended c' (some b') h f = Taken-cons x reads c c' (read_line r reads c' (len + 1) b') (f b' h)

  got_byte :
      (o : Option ℕ)
      → HasRoom len b
      → ((c' : ℕ) (b' : Buffer) → IsReady c' (len + 1) b' → Rest c' b')
      → Safe (WhenSome (Taken (x ∷ reads) c)) (elim o [
        | none ↦ done none
        | some c' ↦ add_byte r c' len b >>= λ p. elim p [
          | none ↦ done none
          | some b' ↦ read_line r reads c' (len + 1) b'
        ]
      ])
  got_byte none h f = tt
  got_byte (some c') h f =
      bind-Safe (WhenSome (IsReady c' (len + 1))) (WhenSome (Taken (x ∷ reads) c))
        (add_byte r c' len b) _ (add_byte-Safe r c' len b h) λ o q. appended c' o q (f c')

read_line-Safe :
    (r : Environment) (reads : List Read) (c len : ℕ) (b : Buffer)
    → IsReady c len b
    → Safe (WhenSome (Taken reads c)) (read_line r reads c len b)
unfolding read_line Rest
read_line-Safe r [] c len b h = ground (arith, h)
read_line-Safe r (x ∷ reads) c len b h =
    branch-Safe (WhenSome (Taken (x ∷ reads) c)) (c == 0x0a) _ _ (λ e. ground (arith, e, h))
      λ e.
        got_byte r x reads c len b (received r x c) h.0
          λ c' b' q. read_line-Safe r reads c' (len + 1) b' q

-- The end of the line is found, no later than where it stands.
line_end-found :
    (n i j : ℕ) (b : Buffer)
    → i ≤ j
    → j < i + n
    → b.cell j ≡ 0x0a
    → (e : ℕ) × (line_end n i b ≡ some e) × (e ≤ j)
unfolding line_end
line_end-found zero i j b l m h = absurd (omega (arith, l, m))
line_end-found (suc n) i j b l m h = elim (Bool-cases ((b.cell i == 0x0a) || (b.cell i == 0x0d))) [
  | inl y ↦ (i, ground (arith, y), l)
  | inr no_end ↦
      let (e, f, g) =
        line_end-found n (i + 1) j b (ground (arith, no_end, l, h)) (omega (arith, m)) h in
      (e, ground (arith, no_end, f), g)
]

c_string-Safe :
    (n i j : ℕ) (b : Buffer) → i ≤ j → j < i + n → b.cell j ≡ 0 → Safe (λ _. Unit) (c_string n i b)
unfolding c_string
c_string-Safe zero i j b l m h = absurd (omega (arith, l, m))
c_string-Safe (suc n) i j b l m h = elim (Bool-cases (b.cell i == 0)) [
  | inl y ↦ rw y tt
  | inr no_end ↦ rw no_end (
      bind-Safe (λ _. Unit) (λ _. Unit) (c_string n (i + 1) b) _
        (c_string-Safe n (i + 1) j b (ground (arith, no_end, l, h)) (omega (arith, m)) h)
        λ cs _. tt)
]

-- The string that `opendir` is given ends inside of the buffer.
answer_buffer-Safe :
    (r : Environment) (len j : ℕ) (b : Buffer)
    → j < b.size
    → b.cell j ≡ 0
    → Safe (λ _. Unit) (answer_buffer r len b)
unfolding answer_buffer
answer_buffer-Safe r len j b l h =
    bind-Safe (λ _. Unit) (λ _. Unit) (c_string b.size 0 b) _
      (c_string-Safe b.size 0 j b (omega arith) (omega (arith, l)) h) λ dir _. tt

reply-Safe :
    (r : Environment) (len : ℕ) (b : Buffer) → IsReady 0x0a len b → Safe (λ _. Unit) (reply r len b)
unfolding reply store_byte
reply-Safe r len b (room, empty, last) = elim (Bool-cases (holds close_request 0 b)) [
  | inl y ↦ rw y tt
  | inr n ↦
      let (e, f, g) =
        line_end-found (len + 1) 0 (len - 1) b (omega arith) (omega arith)
          (last (λ z. ground (arith, empty z))) in
      let inside : e < b.size = omega (arith, room, g) in
      rw n (
        rw f (
          rw (lt→ltb e b.size inside) (
            answer_buffer-Safe r e e (record b { cell = update b.cell e 0 }) inside
              (ground arith))))
]

abbrev Fine : CString → Type 0
Fine out = Unit

replied :
    (rounds : ℕ → Environment) (fuel k : ℕ) (left : List Read) (o : Option CString)
    → Safe Fine (serve_requests rounds fuel (k + 1) left)
    → Safe Fine (elim o [
      | none ↦ done []
      | some out ↦ serve_requests rounds fuel (k + 1) left >>= λ rest. done (out ++ rest)
    ])
replied rounds fuel k left none h = tt
replied rounds fuel k left (some out) h =
    bind-Safe Fine Fine (serve_requests rounds fuel (k + 1) left) _ h λ rest _. tt

after_line :
    (rounds : ℕ → Environment) (fuel k : ℕ) (reads : List Read)
    (o : Option (ℕ × Buffer × List Read))
    → WhenSome (Taken reads 0) o
    → ((left : List Read)
        → length left < length reads
        → Safe Fine (serve_requests rounds fuel (k + 1) left))
    → Safe Fine (elim o [
      | none ↦ done server_error
      | some (len, b, left) ↦ reply (rounds k) len b >>= λ p. elim p [
        | none ↦ done []
        | some out ↦ serve_requests rounds fuel (k + 1) left >>= λ rest. done (out ++ rest)
      ]
    ])
after_line rounds fuel k reads none h f = tt
after_line rounds fuel k reads (some (len, b, left)) h f =
    bind-Safe (λ _. Unit) Fine (reply (rounds k) len b) _ (reply-Safe (rounds k) len b h.2)
      λ o _. replied rounds fuel k left o (f left (h.0 (omega arith)))

serve_requests-Safe :
    (rounds : ℕ → Environment) (fuel k : ℕ) (reads : List Read)
    → length reads < fuel
    → Safe Fine (serve_requests rounds fuel k reads)
unfolding serve_requests
serve_requests-Safe rounds zero k reads h = absurd (omega (arith, h))
serve_requests-Safe rounds (suc fuel) k reads h =
    branch-Safe Fine (rounds k).malloc_granted _ _
      (λ e.
        bind-Safe (WhenSome (Taken reads 0)) Fine
          (read_line (rounds k) reads 0 0 (record { size = 1024; cell = (rounds k).junk })) _
          (read_line-Safe (rounds k) reads 0 0 _ (omega arith, λ _. refl, λ z. absurd (z refl)))
          λ o q.
            after_line rounds fuel k reads o q
              λ left l. serve_requests-Safe rounds fuel (k + 1) left (omega (arith, h, l)))
      λ e. tt

-- Whatever a client sends, whenever it stops, and whatever the allocator answers, `do_work` never
-- writes outside of its buffer, the name that it gives to `opendir` ends inside of it, and the rounds
-- that it is given are enough.
pub do_work_safe :
    (rounds : ℕ → Environment) (reads : List Read)
    → (do_work rounds reads ≢ fault) × (do_work rounds reads ≢ out_of_fuel)
unfolding do_work
do_work_safe rounds reads =
    let safe = serve_requests-Safe rounds (length reads + 1) 0 reads (omega arith) in
    (λ e. ground (arith, subst (Safe Fine) e safe), λ e. ground (arith, subst (Safe Fine) e safe))
