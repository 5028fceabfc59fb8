-- ===== src/Kcsh/Command/Laws.antt =====
-- lab4/parser.c, `make_cmdv`: how the commands of a line are connected.
use syssoft_labs.Prelude.{
  ℕ, ◌+◌, ◌≡◌, Bool, true, false, Option, none, some, List, [], ◌∷◌, ◌++◌, arith, if◌then◌else◌,
}
use syssoft_labs.Prelude.CString.{CString, bytes, same, same_iff}
use syssoft_labs.Kcsh.Outcome.{Outcome, ok, exited, fault, out_of_fuel, ◌>>=◌}
use syssoft_labs.Kcsh.Command.{
  Args, slot, is_operator, is_item, Cmd, make_cmd, connect, redirect_into, redirect_out,
  redirect_from,
}
use syssoft_labs.Kcsh.Command.Parse.{mark_bg, mark_pipeline}

-- The commands read from pipes and write into them as `piped` says; `from` tells whether the first
-- one reads from a pipe, and `to` whether the last one writes into one.
abbrev pub IsLinked : (from : Bool) → List Cmd → (to : Bool) → Type 0
IsLinked from [] to = from ≡ to
IsLinked from (c ∷ cs) to =
    (c.in_fd ≡ (if from then 2 else 0))
    × (c.out_fd ≡ (if c.piped then 2 else 1))
    × IsLinked c.piped cs to

pub IsLinked-append :
    (from mid to : Bool) (cs : List Cmd) (c : Cmd)
    → IsLinked from cs mid
    → IsLinked mid (c ∷ []) to
    → IsLinked from (cs ++ c ∷ []) to
IsLinked-append from mid to [] c h i = ground (arith, h, i)
IsLinked-append from mid to (d ∷ cs) c h i =
    ground (arith, IsLinked-append d.piped mid to cs c h.2 i)

abbrev pub WhenOk : (List Cmd → Type 0) → Outcome (List Cmd) → Type 0
WhenOk P (ok cs) = P cs
WhenOk P _ = Unit {0}

pub mark_bg-IsLinked :
    (from to : Bool) (cs : List Cmd)
    → IsLinked from cs to
    → WhenOk (λ ds. IsLinked from ds to) (mark_bg cs)
unfolding mark_bg
mark_bg-IsLinked from to [] h = tt
mark_bg-IsLinked from to (c ∷ cs) h = ground (arith, mark_bg-IsLinked c.piped to cs h.2)

pub mark_pipeline-IsLinked :
    (from to : Bool) (cs : List Cmd) (c : Cmd)
    → IsLinked from (cs ++ c ∷ []) to
    → WhenOk (λ ds. IsLinked from ds to) (mark_pipeline cs c)
unfolding mark_pipeline
mark_pipeline-IsLinked from to [] c h = h
mark_pipeline-IsLinked from to (d ∷ []) c h = mark_bg-IsLinked from to (d ∷ c ∷ []) h
mark_pipeline-IsLinked from to (d ∷ d' ∷ ds) c h =
    ground (arith, mark_pipeline-IsLinked d.piped to (d' ∷ ds) c h.2)

-- What the parts of the body keep of a command.
abbrev pub IsSame : Cmd → Cmd → Type 0
IsSame c d = (c.in_fd ≡ d.in_fd) × (c.out_fd ≡ d.out_fd) × (c.piped ≡ d.piped)

pub make_cmd_lem :
    (granted : Option ℕ) (args rest : Args) (first last : ℕ) (c : Cmd)
    → make_cmd granted args first last ≡ ok (c, rest)
    → (c.in_fd ≡ 0) × (c.out_fd ≡ 1) × (c.piped ≡ false)
unfolding make_cmd
make_cmd_lem granted args rest first last c e = ground arith

abbrev pub IsPipe : Args → ℕ → Type 0
IsPipe args i =
    (arg : CString) × (slot args i ≡ ok (some (bytes "|")))
    × (slot args (i + 1) ≡ ok (some arg))
    × (is_operator arg ≡ false)

pub item_found :
    (o : Outcome (Option CString)) (item : CString)
    → (o >>= λ a. ok (elim a [ none ↦ false | some arg ↦ same arg item ])) ≡ ok true
    → o ≡ ok (some item)
item_found (ok none) item e = ground arith
item_found (ok (some arg)) item e = ground (arith, same_iff arg item)
item_found (exited c) item e = ground arith
item_found fault item e = ground arith
item_found out_of_fuel item e = ground arith

pub IsPipe-stays :
    (args : Args) (i j : ℕ)
    → IsPipe args i
    → (slot args i ≡ ok (some (bytes "|")) → j ≡ i)
    → IsPipe args j
IsPipe-stays args i j h f = rw (f h.1) h

pub is_item_lem :
    (args : Args) (i : ℕ) (item : CString)
    → is_item args i item ≡ ok true
    → slot args i ≡ ok (some item)
unfolding is_item
is_item_lem args i item e = item_found (slot args i) item e

pub connect_lem :
    (pn : Bool) (args : Args) (i : ℕ) (c d : Cmd) (to : Bool)
    → connect pn args i c ≡ ok (some (d, to))
    → (c.in_fd ≡ 0) × (c.out_fd ≡ 1) × (c.piped ≡ false)
    → IsLinked pn (d ∷ []) to × (to ≡ true → IsPipe args i)
unfolding connect
connect_lem pn args i c d to e h = ground (arith, is_item_lem args i (bytes "|"))

pub redirect_out_lem :
    (granted : Option ℕ) (args : Args) (i j : ℕ) (c d : Cmd)
    → redirect_out granted args i c ≡ ok (some (j, d))
    → IsSame c d × (slot args i ≡ ok (some (bytes "|")) → j ≡ i)
unfolding redirect_out redirect_into is_item same
redirect_out_lem granted args i j c d e = ground arith

pub redirect_from_lem :
    (granted : Option ℕ) (args : Args) (i j : ℕ) (c d : Cmd)
    → redirect_from granted args i c ≡ ok (some (j, d))
    → IsSame c d × (slot args i ≡ ok (some (bytes "|")) → j ≡ i)
unfolding redirect_from is_item same
redirect_from_lem granted args i j c d e = ground arith
