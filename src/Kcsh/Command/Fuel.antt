-- ===== src/Kcsh/Command/Fuel.antt =====
-- lab4/parser.c, `make_cmdv`: its loops end.
use syssoft_labs.Prelude.{
  ℕ, zero, suc, ◌+◌, ◌-◌, ◌%◌, ◌^◌, ◌≤◌, ◌<◌, ◌≡◌, ◌≢◌, ◌⊎◌, inl, inr, refl, sym, ap, ◌∙◌, subst,
  Bool, true, false, Option, none, some, List, [], arith, length,
}
use syssoft_labs.Prelude.CString.{CString}
use syssoft_labs.Kcsh.Outcome.{Outcome, ok, out_of_fuel, try_alloc}
use syssoft_labs.Kcsh.Lexer.{is_granted}
use syssoft_labs.Kcsh.Command.{
  Args, slot, is_operator, Cmd, take_args, make_cmd, Parsed, connect, redirect_out, redirect_from,
}
use syssoft_labs.Kcsh.Command.Parse.{
  background, skip_operators, Round, leave, next_at, close_cmd, after_from, after_out,
  after_connect, end_cmd, round, parse, make_cmdv,
}
use syssoft_labs.Kcsh.Command.Ends.{
  Ends, bind-Ends, if-Ends, slot-Ends, slot-bound, IsTaken, take_args-Ends, IsFrame,
  take_args-IsFrame,
}
use syssoft_labs.Kcsh.Command.Skip.{
  Moves, redirect_from-Ends, redirect_out-Ends, connect-Ends, background-Ends, both-Ends, IsEnd,
  IsOn, skip_operators-IsOn,
}

abbrev pub IsNext : (i n : ℕ) → Round → Type 0
IsNext i n (leave p) = Unit
IsNext i n (next_at j first to cs args) = (length args ≡ n) × IsOn i args (j, first)

module _ (i first : ℕ) (to : Bool) (cs : List Cmd) (args : Args) (at : IsEnd args i)
    (f : first ≤ i) where
  close_cmd-IsNext :
      (j : ℕ) (c : Cmd)
      → i ≤ j
      → (slot args i ≡ ok none → j ≡ i)
      → Ends (IsNext i (length args)) (close_cmd first to cs args (j, c))
  unfolding close_cmd
  close_cmd-IsNext j c l s =
      bind-Ends (λ _. Unit {0}) (IsNext i (length args)) (background args j cs c) _
        (background-Ends args j cs c)
        λ cs' u.
          bind-Ends (IsOn i args) (IsNext i (length args))
            (skip_operators (suc (length args)) j first args) _
            (skip_operators-IsOn i j first args at l s (omega (arith, l, f))) λ q r. (refl, r)

  after_from-IsNext :
      (c : Cmd) (j : ℕ) (r : Option (ℕ × Cmd))
      → i ≤ j
      → (slot args i ≡ ok none → j ≡ i)
      → Moves j args r
      → Ends (IsNext i (length args)) (after_from first to cs args c r)
  unfolding after_from
  after_from-IsNext c j none l s m = tt
  after_from-IsNext c j (some (k, d)) l s m =
      close_cmd-IsNext k d (omega (arith, l, m.0))
        (λ e. m.1 (subst (λ x. slot args x ≡ ok none) (sym (s e)) e) ∙ s e)

  after_out-IsNext :
      (granted : Option ℕ) (c : Cmd) (r : Option (ℕ × Cmd))
      → Moves i args r
      → Ends (IsNext i (length args)) (after_out granted first to cs args c r)
  unfolding after_out
  after_out-IsNext granted c none m = tt
  after_out-IsNext granted c (some (j, d)) m =
      bind-Ends (Moves j args) (IsNext i (length args)) (redirect_from granted args j d) _
        (redirect_from-Ends granted args j d) λ r h. after_from-IsNext d j r m.0 m.1 h

module _ (granted : Option ℕ) (i first : ℕ) (cs : List Cmd) where
  after_connect-IsNext :
      (args : Args) (r : Option (Cmd × Bool))
      → IsEnd args i
      → first ≤ i
      → Ends (IsNext i (length args)) (after_connect granted i first cs args r)
  unfolding after_connect
  after_connect-IsNext args none at f = tt
  after_connect-IsNext args (some (c, to)) at f =
      bind-Ends (Moves i args) (IsNext i (length args)) (redirect_out granted args i c) _
        (redirect_out-Ends granted args i c)
        λ r m. after_out-IsNext i first to cs args at f granted c r m

  made :
      (last : ℕ) (args : Args)
      → ((q : Args × Args)
          → IsTaken first last args q
          → IsFrame ((last + 2 ^ 64 - first + 2) % 2 ^ 64) first last args q
          → IsEnd q.1 i)
      → Ends (λ q. IsEnd q.1 i × (length q.1 ≡ length args)) (make_cmd granted args first last)
  unfolding make_cmd
  made last args at =
      let slots = (last + 2 ^ 64 - first + 2) % 2 ^ 64 in
      let P = λ (q : Cmd × Args). IsEnd q.1 i × (length q.1 ≡ length args) in
      bind-Ends (λ _. Unit {0}) P (try_alloc (is_granted granted)) _ (ground arith)
        λ u v.
          bind-Ends (λ q. IsTaken first last args q × IsFrame slots first last args q) P
            (take_args slots first last args) _
            (both-Ends (IsTaken first last args) (IsFrame slots first last args)
              (take_args slots first last args) (take_args-Ends slots first last args)
              (take_args-IsFrame slots first last args))
            λ q h. (at q h.0 h.1, h.0.0)

  -- `make_cmd` takes the slots up to `last`; what it leaves is the end of a command.
  end_cmd-IsNext :
      (last : ℕ) (pn : Bool) (args : Args)
      → ((q : Args × Args)
          → IsTaken first last args q
          → IsFrame ((last + 2 ^ 64 - first + 2) % 2 ^ 64) first last args q
          → IsEnd q.1 i)
      → first ≤ i
      → Ends (IsNext i (length args)) (end_cmd granted i first last pn cs args)
  unfolding end_cmd
  end_cmd-IsNext last pn args at f =
      bind-Ends (λ q. IsEnd q.1 i × (length q.1 ≡ length args)) (IsNext i (length args))
        (make_cmd granted args first last) _ (made last args at)
        λ (c, rest) h.
          bind-Ends (λ _. Unit {0}) (IsNext i (length args)) (connect pn rest i c) _
            (connect-Ends pn rest i c)
            λ r u.
              subst (λ n. Ends (IsNext i n) (after_connect granted i first cs rest r)) h.1
                (after_connect-IsNext rest r h.0 f)

at_operator :
    (i first : ℕ) (args : Args) (arg : CString) (q : Args × Args)
    → slot args i ≡ ok (some arg)
    → is_operator arg ≡ true
    → first ≤ i
    → (let last = (i + 2 ^ 64 - 1) % 2 ^ 64 in
        IsFrame ((last + 2 ^ 64 - first + 2) % 2 ^ 64) first last args q)
    → IsEnd q.1 i
at_operator i first args arg q e o f h = inr (arg, h.1 i (omega (arith, h.0, f)) ∙ e, o)

by-IsNext :
    (granted : ℕ → Option ℕ) (i first : ℕ) (pn : Bool) (cs : List Cmd) (args : Args)
    → first ≤ i
    → (next : Option CString) → slot args (i + 1) ≡ ok next
    → Ends (IsNext i (length args)) (elim next [
      | some next_arg ↦ ok (next_at (i + 1) first pn cs args)
      | none ↦ end_cmd (granted (length cs)) i first i pn cs args
    ])
by-IsNext granted i first pn cs args f none e =
    end_cmd-IsNext (granted (length cs)) i first cs i pn args (λ q t h. inl (t.1 f)) f
by-IsNext granted i first pn cs args f (some arg) e = (refl, (omega (arith, f), inl (omega arith)))

round-IsNext :
    (granted : ℕ → Option ℕ) (arg : CString) (i first : ℕ) (pn : Bool) (cs : List Cmd) (args : Args)
    → slot args i ≡ ok (some arg)
    → first ≤ i
    → Ends (IsNext i (length args)) (round granted arg i first pn cs args)
unfolding round
round-IsNext granted arg i first pn cs args e f =
    let P = IsNext i (length args) in
    if-Ends P (is_operator arg) _ _
      (λ o.
        end_cmd-IsNext (granted (length cs)) i first cs ((i + 2 ^ 64 - 1) % 2 ^ 64) pn args
          (λ q t h. at_operator i first args arg q e o f h) f)
      λ o.
        bind-Ends (λ a. slot args (i + 1) ≡ ok a) P (slot args (i + 1)) _ (slot-Ends args (i + 1))
          (by-IsNext granted i first pn cs args f)

abbrev pub IsReady : (fuel i first : ℕ) → Args → Type 0
IsReady fuel i first args =
    (1 ≤ fuel) × (first ≤ i) × ((length args < fuel + i) ⊎ (slot args i ≡ ok none))

IsReady-next :
    (fuel i j first first' : ℕ) (args args' : Args) (arg : CString)
    → IsReady (suc fuel) i first args
    → slot args i ≡ ok (some arg)
    → (length args' ≡ length args) × IsOn i args' (j, first')
    → IsReady fuel j first' args'
IsReady-next fuel i j first first' args args' arg h e n =
    ground (arith, h, e, n, slot-bound args i (some arg) e)

item-Ends :
    (a : Option CString) (p : Parsed) (k : CString → Outcome Parsed)
    → ((arg : CString) → a ≡ some arg → Ends (λ _. Unit {0}) (k arg))
    → Ends (λ _. Unit {0}) (elim a [ none ↦ ok p | some arg ↦ k arg ])
item-Ends none p k h = tt
item-Ends (some arg) p k h = h arg refl

after_round-Ends :
    (i n : ℕ) (r : Round) (k : ℕ → ℕ → Bool → List Cmd → Args → Outcome Parsed)
    → IsNext i n r
    → ((j first : ℕ) (to : Bool) (cs : List Cmd) (args : Args)
        → (length args ≡ n) × IsOn i args (j, first)
        → Ends (λ _. Unit {0}) (k j first to cs args))
    → Ends
        (λ _. Unit {0})
        (elim r [ leave p ↦ ok p | next_at j first to cs args ↦ k j first to cs args ])
after_round-Ends i n (leave p) k h f = tt
after_round-Ends i n (next_at j first to cs args) k h f = f j first to cs args h

parse-Ends :
    (granted : ℕ → Option ℕ) (fuel i first : ℕ) (pn : Bool) (cs : List Cmd) (args : Args)
    → IsReady fuel i first args
    → Ends (λ _. Unit {0}) (parse granted fuel i first pn cs args)
unfolding parse
parse-Ends granted zero i first pn cs args h = absurd (omega (arith, h.0))
parse-Ends granted (suc fuel) i first pn cs args h =
    bind-Ends (λ a. slot args i ≡ ok a) (λ _. Unit {0}) (slot args i) _ (slot-Ends args i)
      λ a e. item-Ends a _ _ λ arg t.
        let e' = e ∙ ap ok t in
        bind-Ends (IsNext i (length args)) (λ _. Unit {0}) (round granted arg i first pn cs args) _
          (round-IsNext granted arg i first pn cs args e' h.1)
          λ r n.
            after_round-Ends i (length args) r (parse granted fuel) n λ j first' to cs' args' m.
              parse-Ends granted fuel j first' to cs' args'
                (IsReady-next fuel i j first first' args args' arg h e' m)

-- The rounds that `make_cmdv` is given are enough, whatever the vector holds and whatever the
-- allocator answers.
pub make_cmdv_terminates :
    (granted : ℕ → Option ℕ) (args : Args) → make_cmdv granted args ≢ out_of_fuel
unfolding make_cmdv
make_cmdv_terminates granted args e = ground (
  arith,
  subst (Ends (λ _. Unit {0})) e (
      parse-Ends granted (length args + 1) 0 0 false [] args
        (omega arith, omega arith, inl (omega arith))),
)
