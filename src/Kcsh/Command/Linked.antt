-- ===== src/Kcsh/Command/Linked.antt =====
-- lab4/parser.c, `make_cmdv`: the commands of an accepted line are connected by pipes.
use syssoft_labs.Prelude.{
  ℕ, zero, suc, ◌+◌, ◌-◌, ◌%◌, ◌^◌, ◌≡◌, refl, Bool, true, false, Option, none, some, List, [], ◌∷◌,
  arith, subst, length,
}
use syssoft_labs.Prelude.CString.{CString}
use syssoft_labs.Kcsh.Outcome.{Outcome, ok, exited, fault, out_of_fuel, ◌>>=◌}
use syssoft_labs.Kcsh.Command.{
  Args, slot, is_operator, Cmd, make_cmd, Parsed, connect, redirect_out, redirect_from,
}
use syssoft_labs.Kcsh.Command.Parse.{
  background, skip_operators, Round, leave, next_at, end_cmd, round, parse, close_cmd, after_from,
  after_out, after_connect, make_cmdv,
}
use syssoft_labs.Kcsh.Command.Laws.{
  IsLinked, IsLinked-append, WhenOk, mark_pipeline-IsLinked, make_cmd_lem, IsPipe, IsPipe-stays,
  connect_lem, redirect_out_lem, redirect_from_lem,
}

-- What a round leaves behind: the commands so far are linked, and where a pipe is open another item
-- follows.
abbrev pub IsOpen : Args → ℕ → Bool → Type 0
IsOpen args i to = to ≡ true → (arg : CString) × (slot args i ≡ ok (some arg))

abbrev pub IsSound : Round → Type 0
IsSound (leave p) = p.accepted ≡ true → IsLinked false p.commands false × (p.terminated ≡ true)
IsSound (next_at i first to cs args) = IsLinked false cs to × IsOpen args i to

abbrev pub SoundWhenOk : Outcome Round → Type 0
SoundWhenOk (ok r) = IsSound r
SoundWhenOk _ = Unit {0}

background-IsLinked :
    (args : Args) (i : ℕ) (from mid to : Bool) (cs : List Cmd) (c : Cmd)
    → IsLinked from cs mid
    → IsLinked mid (c ∷ []) to
    → WhenOk (λ ds. IsLinked from ds to) (background args i cs c)
unfolding background
background-IsLinked args i from mid to cs c h l = ground (
  arith,
  IsLinked-append from mid to cs c h l,
  mark_pipeline-IsLinked from to cs (record c { bg = true })
      (IsLinked-append from mid to cs (record c { bg = true }) h l),
)

-- A separator cannot stand behind a pipe: the loop stops at the item that follows it.
skip_operators-IsPipe :
    (n i first j first' : ℕ) (args : Args)
    → IsPipe args i
    → skip_operators n i first args ≡ ok (j, first')
    → j ≡ i + 1
unfolding skip_operators is_operator
skip_operators-IsPipe zero i first j first' args h e = ground arith
skip_operators-IsPipe (suc zero) i first j first' args h e = ground (arith, h.1, h.2)
skip_operators-IsPipe (suc (suc n)) i first j first' args h e = ground (arith, h.1, h.2)

module _ {ℓ} {A : Type ℓ} where
  bind-Sound :
      (m : Outcome A) (k : A → Outcome Round)
      → ((a : A) → m ≡ ok a → SoundWhenOk (k a))
      → SoundWhenOk (m >>= k)
  bind-Sound (ok a) k h = h a refl
  bind-Sound (exited c) k h = tt
  bind-Sound fault k h = tt
  bind-Sound out_of_fuel k h = tt

module _ (first : ℕ) (pn to : Bool) (cs : List Cmd) (args : Args) (h : IsLinked false cs pn) where
  close_cmd-Sound :
      (i : ℕ) (c : Cmd)
      → IsLinked pn (c ∷ []) to
      → (to ≡ true → IsPipe args i)
      → SoundWhenOk (close_cmd first to cs args (i, c))
  unfolding close_cmd
  close_cmd-Sound i c l p = bind-Sound (background args i cs c) _ λ cs' e.
      bind-Sound (skip_operators (suc (length args)) i first args) _ λ q e'. ground (
        arith,
        background-IsLinked args i false pn to cs c h l,
        λ (t : to ≡ true). skip_operators-IsPipe (suc (length args)) i first q.0 q.1 args (p t) e',
      )

  after_from-Sound :
      (granted : Option ℕ) (i : ℕ) (c : Cmd) (r : Option (ℕ × Cmd))
      → IsLinked pn (c ∷ []) to
      → (to ≡ true → IsPipe args i)
      → redirect_from granted args i c ≡ ok r
      → SoundWhenOk (after_from first to cs args c r)
  unfolding after_from
  after_from-Sound granted i c none l p e = ground arith
  after_from-Sound granted i c (some (j, d)) l p e =
      let kept = redirect_from_lem granted args i j c d e in
      close_cmd-Sound j d (ground (arith, l, kept)) λ t. IsPipe-stays args i j (p t) kept.1

  after_out-Sound :
      (granted : Option ℕ) (i : ℕ) (c : Cmd) (r : Option (ℕ × Cmd))
      → IsLinked pn (c ∷ []) to
      → (to ≡ true → IsPipe args i)
      → redirect_out granted args i c ≡ ok r
      → SoundWhenOk (after_out granted first to cs args c r)
  unfolding after_out
  after_out-Sound granted i c none l p e = ground arith
  after_out-Sound granted i c (some (j, d)) l p e =
      let kept = redirect_out_lem granted args i j c d e in
      bind-Sound (redirect_from granted args j d) _ λ r e'.
        after_from-Sound granted j d r (ground (arith, l, kept))
          (λ t. IsPipe-stays args i j (p t) kept.1) e'

module _ (granted : Option ℕ) (i first : ℕ) (pn : Bool) (cs : List Cmd)
    (h : IsLinked false cs pn) where
  after_connect-Sound :
      (args : Args) (c : Cmd) (r : Option (Cmd × Bool))
      → (c.in_fd ≡ 0) × (c.out_fd ≡ 1) × (c.piped ≡ false)
      → connect pn args i c ≡ ok r
      → SoundWhenOk (after_connect granted i first cs args r)
  unfolding after_connect
  after_connect-Sound args c none l e = ground arith
  after_connect-Sound args c (some (d, to)) l e =
      let linked = connect_lem pn args i c d to e l in
      bind-Sound (redirect_out granted args i d) _
        λ r e'. after_out-Sound first pn to cs args h granted i d r linked.0 linked.1 e'

  end_cmd-Sound : (last : ℕ) (args : Args) → SoundWhenOk (end_cmd granted i first last pn cs args)
  unfolding end_cmd
  end_cmd-Sound last args = bind-Sound (make_cmd granted args first last) _ λ (c, rest) e.
      bind-Sound (connect pn rest i c) _
        λ r e'. after_connect-Sound rest c r (make_cmd_lem granted args rest first last c e) e'

round-Sound :
    (granted : ℕ → Option ℕ) (arg : CString) (i first : ℕ) (pn : Bool) (cs : List Cmd) (args : Args)
    → IsLinked false cs pn
    → SoundWhenOk (round granted arg i first pn cs args)
unfolding round
round-Sound granted arg i first pn cs args h = ground (
  arith,
  end_cmd-Sound (granted (length cs)) i first pn cs h ((i + 2 ^ 64 - 1) % 2 ^ 64) args,
  end_cmd-Sound (granted (length cs)) i first pn cs h i args,
)

-- What `parse` may answer.
abbrev pub Answer : Outcome Parsed → Type 0
Answer (ok p) = p.accepted ≡ true → IsLinked false p.commands false × (p.terminated ≡ true)
Answer _ = Unit {0}

Answer-slot :
    (o : Outcome (Option CString)) (p : Parsed) (k : CString → Outcome Parsed)
    → (o ≡ ok none → Answer (ok p))
    → ((arg : CString) → Answer (k arg))
    → Answer (o >>= λ a. elim a [ none ↦ ok p | some arg ↦ k arg ])
Answer-slot (ok none) p k h f = h refl
Answer-slot (ok (some arg)) p k h f = f arg
Answer-slot (exited c) p k h f = tt
Answer-slot fault p k h f = tt
Answer-slot out_of_fuel p k h f = tt

Answer-round :
    (o : Outcome Round) (k : ℕ → ℕ → Bool → List Cmd → Args → Outcome Parsed)
    → SoundWhenOk o
    → ((i first : ℕ) (to : Bool) (cs : List Cmd) (args : Args)
        → IsSound (next_at i first to cs args)
        → Answer (k i first to cs args))
    → Answer
        (o >>= λ r. elim r [ leave p ↦ ok p | next_at i first to cs args ↦ k i first to cs args ])
Answer-round (ok (leave p)) k h f = h
Answer-round (ok (next_at i first to cs args)) k h f = f i first to cs args h
Answer-round (exited c) k h f = tt
Answer-round fault k h f = tt
Answer-round out_of_fuel k h f = tt

-- At the end of the vector no pipe is open.
end-IsLinked :
    (args : Args) (i : ℕ) (to : Bool) (cs : List Cmd)
    → IsLinked false cs to
    → IsOpen args i to
    → slot args i ≡ ok none
    → IsLinked false cs false
end-IsLinked args i false cs h o e = h
end-IsLinked args i true cs h o e = absurd (ground (arith, (o refl).1, e))

parse-Linked :
    (granted : ℕ → Option ℕ) (fuel i first : ℕ) (pn : Bool) (cs : List Cmd) (args : Args)
    → IsLinked false cs pn
    → IsOpen args i pn
    → Answer (parse granted fuel i first pn cs args)
unfolding parse
parse-Linked granted zero i first pn cs args h o = tt
parse-Linked granted (suc fuel) i first pn cs args h o =
    Answer-slot (slot args i) _ _ (λ e. λ t. (end-IsLinked args i pn cs h o e, refl))
      λ arg.
        Answer-round (round granted arg i first pn cs args) (parse granted fuel)
          (round-Sound granted arg i first pn cs args h)
          λ j first' to cs' args' s. parse-Linked granted fuel j first' to cs' args' s.0 s.1

make_cmdv-Answer : (granted : ℕ → Option ℕ) (args : Args) → Answer (make_cmdv granted args)
unfolding make_cmdv
make_cmdv-Answer granted args =
    parse-Linked granted (length args + 1) 0 0 false [] args refl (λ t. absurd (ground (arith, t)))

-- When `make_cmdv` accepts a line, the first command reads descriptor 0, every other command reads a
-- pipe exactly when the one before it is piped, a piped command writes into a pipe and no other
-- does, and the last command is not piped.
pub make_cmdv-IsLinked :
    (granted : ℕ → Option ℕ) (args : Args) (p : Parsed)
    → make_cmdv granted args ≡ ok p
    → p.accepted ≡ true
    → IsLinked false p.commands false
make_cmdv-IsLinked granted args p e t = (subst Answer e (make_cmdv-Answer granted args) t).0

-- The commands of an accepted line end with a NULL.
pub make_cmdv_terminated :
    (granted : ℕ → Option ℕ) (args : Args) (p : Parsed)
    → make_cmdv granted args ≡ ok p
    → p.accepted ≡ true
    → p.terminated ≡ true
make_cmdv_terminated granted args p e t = (subst Answer e (make_cmdv-Answer granted args) t).1
