-- ===== src/Kcsh/Launch/Pipeline.antt =====
-- lab4/kcsh.c, `main`: the commands of an accepted line are started one by one, each with the files
-- that the pipes between them ask for.
use mathlib.Core.List.{append_assoc, append-nil}
use syssoft_labs.Prelude.{
  Option, ℕ, zero, suc, ◌+◌, ◌<◌, ◌≡◌, ◌≢◌, refl, ◌∙◌, sym, ap, subst, Bool, true, false, none,
  some, List, [], ◌∷◌, ◌++◌, length, arith, if◌then◌else◌, inl, inr, Bool-cases, All,
}
use syssoft_labs.Kcsh.Outcome.{ok}
use syssoft_labs.Prelude.CString.{CString}
use syssoft_labs.Prelude.Int.{ℤ, pos}
use syssoft_labs.Kcsh.Builtin.{Builtin, builtin}
use syssoft_labs.Kcsh.Functions.{Function}
use syssoft_labs.Kcsh.Command.{Args, Cmd, Parsed, slot}
use syssoft_labs.Kcsh.Command.Parse.{make_cmdv}
use syssoft_labs.Kcsh.Command.Laws.{IsLinked}
use syssoft_labs.Kcsh.Command.Linked.{make_cmdv-IsLinked, make_cmdv_terminated}
use syssoft_labs.Kcsh.Launch.{
  File, pipe_read, pipe_write, Files, file_at, put_file, System, on, close, child, parent, Started,
  Shell, start_program, fork_and_exec, find_builtin, run_program, feed, run_commands, run_line,
}
use syssoft_labs.Kcsh.Launch.Child.{
  IsWorking, IsOther, Std, HasNames, input_of, output_of, child_lem,
}

-- The programs that were started for the commands from number `k` on: `source` is what the first one
-- reads without a redirection, and `f` and `g` are the standard input and output of the shell.
abbrev pub IsWired : (f g source : File) → (k : ℕ) → List Cmd → List Started → Type 0
IsWired f g source k [] [] = Unit
IsWired f g source k (c ∷ cs) (s ∷ ss) =
    ((s.argv ≡ c.argv)
      × Std s.files (input_of c source) (output_of c (if c.piped then pipe_write k else g)))
    × IsWired f g (if c.piped then pipe_read k else f) (k + 1) cs ss
IsWired f g source k [] (s ∷ ss) = true ≡ false
IsWired f g source k (c ∷ cs) [] = true ≡ false

-- a program in the foreground: a command with a name that is not that of a built-in function
abbrev pub IsForeground : List (Builtin Function) → Cmd → Type 0
IsForeground bs c =
    ((name : CString) × (slot c.argv 0 ≡ ok (some name)) × (builtin name bs ≡ none))
    × (c.bg ≡ false)
    × HasNames c

-- the value that `fork_and_exec` returns for a program that was waited for
abbrev pub status_code : System → ℤ
status_code s = elim s.status [ none ↦ pos 0 | some code ↦ pos code ]

-- The code of the last command, or `before` if there is none.
abbrev pub last_code : (ℕ → System) → (k : ℕ) → List Cmd → (before : ℤ) → ℤ
last_code sys k [] before = before
last_code sys k (c ∷ cs) before = last_code sys (k + 1) cs (status_code (sys k))

-- What a program in the foreground leaves as it is in the shell.
abbrev pub IsKept : Shell → Shell → Type 0
IsKept sh sh' = (sh'.builtins ≡ sh.builtins) × (sh'.process ≡ sh.process) × (sh'.jobs ≡ sh.jobs)

foreground-nonempty :
    (argv : Args) (name : CString) → slot argv 0 ≡ ok (some name) → length argv ≢ 0
foreground-nonempty [] name e n = ground (arith, e)
foreground-nonempty (a ∷ argv) name e n = ground (arith, n)

-- `fork_and_exec` starts the program and leaves the shell's own files alone.
fork_and_exec_lem :
    (s : System) (pipefd : ℕ × ℕ) (c : Cmd) (sh : Shell) (files : Files)
    → IsWorking s
    → IsForeground sh.builtins c
    → child s pipefd c sh.files ≡ ok (on files)
    → fork_and_exec s pipefd c sh ≡ ok (record (start_program c files sh) { code = status_code s })
unfolding fork_and_exec parent find_builtin run_program
fork_and_exec_lem s pipefd c sh files works ((name, at, none_known), b, names) e =
    ground
      (arith, works.forks, works.execs, foreground-nonempty c.argv name at, at, none_known, b, e)

-- The commands that are left, where the shell stands.
pub record IsReady (f g source : File) (from : Bool) (pipefd : ℕ × ℕ) (sh : Shell) : Type 0 where
  pub std : Std sh.files f g
  pub alone : from ≡ false → source ≡ f
  pub piped : from ≡ true → (file_at sh.files pipefd.0 ≡ some source) × IsOther pipefd.0

abbrev pub fed : (from : Bool) → ℕ → List Cmd → List Cmd
fed from r cs = if from then feed r cs else cs

-- The program that is started for command `k`.
abbrev WiredAs : (g source : File) → (k : ℕ) → Cmd → Started → Type 0
WiredAs g source k c s =
    (s.argv ≡ c.argv)
    × Std s.files (input_of c source) (output_of c (if c.piped then pipe_write k else g))

-- A descriptor that is not in use is not a standard one, and opening it leaves the others alone.
not_open :
    (files : Files) (f g : File) (fd : ℕ) → Std files f g → file_at files fd ≡ none → IsOther fd
not_open files f g fd std z = (
  λ e. ground (arith, std.0, z, ap (file_at files) e),
  λ e. ground (arith, std.1, z, ap (file_at files) e),
)

new_open :
    (files : Files) (r w fd : ℕ) (f g h : File)
    → file_at files r ≡ none
    → file_at files w ≡ none
    → file_at files fd ≡ some h
    → file_at (put_file (put_file files r (some f)) w (some g)) fd ≡ some h
new_open files r w fd f g h zr zw e = ground (arith, zr, zw, e)

module _ (sys : ℕ → System) (f g : File) (n k : ℕ) (works : IsWorking (sys k)) where
  -- What a round of the loop does with a command: it starts the program, and goes on ready for the rest.
  abbrev IsRound : (pipefd : ℕ × ℕ) (c : Cmd) (cs : List Cmd) (sh : Shell) (source : File) → Type 0
  IsRound pipefd c cs sh source =
      (pipefd' : ℕ × ℕ) × (sh' : Shell) × (s : Started) × (run_commands sys (suc n) k pipefd
          (c ∷ cs) sh
        ≡ run_commands sys n (k + 1) pipefd' (fed c.piped pipefd'.0 cs) sh')
      × (sh'.started ≡ sh.started ++ s ∷ [])
      × WiredAs g source k c s
      × IsReady f g (if c.piped then pipe_read k else f) c.piped pipefd' sh'
      × IsKept sh sh'
      × (sh'.code ≡ status_code (sys k))

  -- A command whose output is not a pipe.
  run_last :
      (pipefd : ℕ × ℕ) (c : Cmd) (cs : List Cmd) (sh : Shell) (source : File)
      → IsForeground sh.builtins c
      → Std sh.files f g
      → (c.in_fd ≡ 0 → source ≡ f)
      → (c.in_fd ≢ 0 → (file_at sh.files c.in_fd ≡ some source) × IsOther pipefd.0)
      → c.out_fd ≡ 1
      → (files : Files) × (run_commands sys (suc n) k pipefd (c ∷ cs) sh
          ≡ run_commands sys n
              (k + 1)
              pipefd
              cs
              (record (start_program c files sh) { code = status_code (sys k) }))
        × Std files (input_of c source) (output_of c g)
  unfolding run_commands
  run_last pipefd c cs sh source fore std alone piped out =
      let (files, e, wired) =
        child_lem (sys k) works pipefd c sh.files f g source g std alone piped (λ _. refl)
          (λ m. absurd (m out)) fore.2 in
      let e' = fork_and_exec_lem (sys k) pipefd c sh files works fore e in
      (files, ground (arith, out, e'), wired)

  -- A command whose output is a pipe: the pipe is made, and the shell closes its end to write.
  run_piped :
      (pipefd : ℕ × ℕ) (c : Cmd) (cs : List Cmd) (sh : Shell) (source : File)
      → IsForeground sh.builtins c
      → Std sh.files f g
      → (c.in_fd ≡ 0 → source ≡ f)
      → (c.in_fd ≢ 0 → file_at sh.files c.in_fd ≡ some source)
      → c.out_fd ≡ 2
      → (r : ℕ) × (w : ℕ) × (files after : Files) × (run_commands sys (suc n) k pipefd (c ∷ cs) sh
          ≡ run_commands sys n
              (k + 1)
              (r, w)
              (feed r cs)
              (record (start_program c files sh) { files = after; code = status_code (sys k) }))
        × Std files (input_of c source) (output_of c (pipe_write k))
        × Std after f g
        × (file_at after r ≡ some (pipe_read k))
        × IsOther r
  unfolding run_commands
  run_piped pipefd c cs sh source fore std alone piped out =
      let (r, w, e, zr, zw, rw) = works.pipes sh.files in
      let files = put_file (put_file sh.files r (some (pipe_read k))) w (some (pipe_write k)) in
      let c' = record c { out_fd = w } in
      let other_r = not_open sh.files f g r std zr in
      let other_w = not_open sh.files f g w std zw in
      let kept = λ (m : c.in_fd ≢ 0).
        new_open sh.files r w c.in_fd (pipe_read k) (pipe_write k) source zr zw (piped m) in
      let std' : Std files f g = (
        new_open sh.files r w 0 (pipe_read k) (pipe_write k) f zr zw std.0,
        new_open sh.files r w 1 (pipe_read k) (pipe_write k) g zr zw std.1,
      ) in
      let (started, e', wired) =
        child_lem (sys k) works (r, w) c' files f g source (pipe_write k) std' alone
          (λ m. (kept m, other_r)) (λ z. absurd (other_w.1 z))
          (λ _. (ground arith, other_w.0, other_w)) fore.2 in
      let e'' =
        fork_and_exec_lem (sys k) (r, w) c' (record sh { files = files }) started works fore e' in
      (
        r,
        w,
        started,
        close w files,
        ground (arith, out, e, e''),
        wired,
        (ground (arith, std'.0, other_w.0), ground (arith, std'.1, other_w.1)),
        ground (arith, rw),
        other_r,
      )

  -- One round of the loop, whatever the command is.
  run_one :
      (pipefd : ℕ × ℕ) (c : Cmd) (cs : List Cmd) (sh : Shell) (source : File)
      → IsForeground sh.builtins c
      → Std sh.files f g
      → (c.in_fd ≡ 0 → source ≡ f)
      → (c.in_fd ≢ 0 → (file_at sh.files c.in_fd ≡ some source) × IsOther pipefd.0)
      → c.out_fd ≡ (if c.piped then 2 else 1)
      → IsRound pipefd c cs sh source
  run_one pipefd c cs sh source fore std alone piped out = elim (Bool-cases c.piped) [
    | inl e ↦
        let (r, w, files, after, runs, wired, std', at_read, other) =
          run_piped pipefd c cs sh source fore std alone (λ m. (piped m).0)
            (ground (arith, out, e)) in
        (
          (r, w),
          record (start_program c files sh) { files = after; code = status_code (sys k) },
          record { argv = c.argv; files = files },
          ground (arith, runs, e),
          refl,
          (refl, ground (arith, wired, e)),
          record {
            std = std';
            alone = λ m. absurd (ground (arith, m, e));
            piped = λ _. (ground (arith, at_read, e), other);
          },
          (refl, refl, refl),
          refl,
        )
    | inr e ↦
        let (files, runs, wired) =
          run_last pipefd c cs sh source fore std alone piped (ground (arith, out, e)) in
        (
          pipefd,
          record (start_program c files sh) { code = status_code (sys k) },
          record { argv = c.argv; files = files },
          ground (arith, runs, e),
          refl,
          (refl, ground (arith, wired, e)),
          record {
            std = std;
            alone = λ _. ground (arith, e);
            piped = λ m. absurd (ground (arith, m, e));
          },
          (refl, refl, refl),
          refl,
        )
  ]

  -- The input of the command is what the round before has put there.
  run_linked :
      (from : Bool) (pipefd : ℕ × ℕ) (c : Cmd) (cs : List Cmd) (sh : Shell) (source : File)
      → IsForeground sh.builtins c
      → IsReady f g source from pipefd sh
      → c.in_fd ≡ (if from then 2 else 0)
      → c.out_fd ≡ (if c.piped then 2 else 1)
      → (pipefd' : ℕ × ℕ) × (sh' : Shell) × (s : Started) × (run_commands sys
            (suc n)
            k
            pipefd
            (fed from pipefd.0 (c ∷ cs))
            sh
          ≡ run_commands sys n (k + 1) pipefd' (fed c.piped pipefd'.0 cs) sh')
        × (sh'.started ≡ sh.started ++ s ∷ [])
        × WiredAs g source k c s
        × IsReady f g (if c.piped then pipe_read k else f) c.piped pipefd' sh'
        × IsKept sh sh'
        × (sh'.code ≡ status_code (sys k))
  run_linked false pipefd c cs sh source fore ready i o =
      run_one pipefd c cs sh source fore ready.std (λ _. ready.alone refl) (λ m. absurd (m i)) o
  run_linked true pipefd c cs sh source fore ready i o =
      let fed_by = ready.piped refl in
      run_one pipefd (record c { in_fd = pipefd.0 }) cs sh source fore ready.std
        (λ z. absurd (fed_by.1.0 z)) (λ _. fed_by) o

-- The loop over the commands: the first one reads `source`, from a pipe where `from` says so.
pub run_commands-IsWired :
    (sys : ℕ → System) (f g : File) (n k : ℕ) (pipefd : ℕ × ℕ) (cs : List Cmd) (sh : Shell)
    (source : File) (from : Bool)
    → ((j : ℕ) → IsWorking (sys j))
    → All (IsForeground sh.builtins) cs
    → IsLinked from cs false
    → IsReady f g source from pipefd sh
    → length cs < n
    → (sh' : Shell) × (ss : List Started) × (run_commands sys n k pipefd (fed from pipefd.0 cs) sh
        ≡ ok sh')
      × (sh'.started ≡ sh.started ++ ss)
      × IsWired f g source k cs ss
      × IsKept sh sh'
      × (sh'.code ≡ last_code sys k cs sh.code)
unfolding run_commands
run_commands-IsWired sys f g zero k pipefd cs sh source from works fore links ready m =
    absurd (ground (arith, m))
run_commands-IsWired sys f g (suc n) k pipefd [] sh source from works fore links ready m =
    (sh, [], ground (arith, links), sym (append-nil sh.started), tt, (refl, refl, refl), refl)
run_commands-IsWired sys f g (suc n) k pipefd (c ∷ cs) sh source from works fore links ready m =
    let (pipefd', sh', s, runs, starts, wired, ready', kept, code) =
      run_linked sys f g n k (works k) from pipefd c cs sh source fore.0 ready links.0 links.1 in
    let (sh'', ss, runs', starts', wired', kept', code') =
      run_commands-IsWired sys f g n (k + 1) pipefd' cs sh' (if c.piped then pipe_read k else f)
        c.piped works (subst (λ bs. All (IsForeground bs) cs) (sym kept.0) fore.1) links.2 ready'
        (ground (arith, m)) in
    (
      sh'',
      s ∷ ss,
      runs ∙ runs',
      starts' ∙ ap (λ l. l ++ ss) starts ∙ append_assoc sh.started (s ∷ []) ss,
      (wired, wired'),
      (kept'.0 ∙ kept.0, kept'.1 ∙ kept.1, kept'.2 ∙ kept.2),
      code' ∙ ap (last_code sys (k + 1) cs) code,
    )

-- Where every call of the system succeeds, a new descriptor is one that was not in use, no name is
-- that of a built-in function, and the shell has a standard input and output, an accepted line of
-- commands, each in the foreground, with a name, and with a file name where it is redirected, is
-- run to its end: each command is started once, in the order of the line, with its arguments. It
-- reads the pipe of the command before it if that one is piped, and else the input of the shell;
-- it writes into its own pipe if it is piped, and else to the output of the shell; a file that it
-- is redirected from or to takes that place. The shell keeps its built-in functions, variables and
-- jobs, and its code is the status of the last command.
pub run_line-IsWired :
    (sys : ℕ → System) (granted : ℕ → Option ℕ) (pipefd : ℕ × ℕ) (args : Args) (p : Parsed)
    (sh : Shell) (f g : File)
    → ((j : ℕ) → IsWorking (sys j))
    → make_cmdv granted args ≡ ok p
    → p.accepted ≡ true
    → All (IsForeground sh.builtins) p.commands
    → Std sh.files f g
    → (sh' : Shell) × (ss : List Started) × (run_line sys granted pipefd args sh ≡ ok sh')
      × (sh'.started ≡ sh.started ++ ss)
      × IsWired f g f 0 p.commands ss
      × IsKept sh sh'
      × (sh'.code ≡ last_code sys 0 p.commands (pos 0))
unfolding run_line
run_line-IsWired sys granted pipefd args p sh f g works e a fore std =
    let (sh', ss, runs, starts, wired, kept, code) =
      run_commands-IsWired sys f g (length p.commands + 1) 0 pipefd p.commands
        (record sh { code = pos 0 }) f false works fore (make_cmdv-IsLinked granted args p e a)
        (record { std = std; alone = λ _. refl; piped = λ m. absurd (ground (arith, m)) })
        (omega arith) in
    (
      sh',
      ss,
      ground (arith, e, a, make_cmdv_terminated granted args p e a, runs),
      starts,
      wired,
      kept,
      code,
    )
