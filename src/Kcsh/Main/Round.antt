-- ===== src/Kcsh/Main/Round.antt =====
-- lab4/kcsh.c: what a round of the loop of `main` does with an accepted line.
use syssoft_labs.Prelude.{
  ℕ, ◌<◌, ◌^◌, ◌≡◌, ◌≢◌, ap, ◌∙◌, true, Option, none, some, List, ◌++◌, length, All, arith,
  if◌then◌else◌,
}
use syssoft_labs.Prelude.CString.{CString, bytes, same}
use syssoft_labs.Prelude.Int.{pos}
use syssoft_labs.Kcsh.Outcome.{ok, ◌>>=◌}
use syssoft_labs.Kcsh.Number.Decimal.{IsNumeral, errc_to_a-IsNumeral}
use syssoft_labs.Kcsh.Variable.{Variable, find, get_var, set_var_force}
use syssoft_labs.Kcsh.Variable.Laws.{find-set_var_force, get_var-set_var_force, set_var_force-known}
use syssoft_labs.Kcsh.Editor.{line_size}
use syssoft_labs.Kcsh.Lexer.{split_args}
use syssoft_labs.Kcsh.Command.{Parsed}
use syssoft_labs.Kcsh.Command.Parse.{make_cmdv, vector}
use syssoft_labs.Kcsh.Functions.{Process}
use syssoft_labs.Kcsh.Launch.{File, Shell, Started}
use syssoft_labs.Kcsh.Launch.Child.{IsWorking, Std}
use syssoft_labs.Kcsh.Launch.Pipeline.{IsForeground, IsWired, last_code, run_line-IsWired}
use syssoft_labs.Kcsh.Unfold.Write.{Spells, string_from-Spells}
use syssoft_labs.Kcsh.Unfold.Line.{get_splitted-plain}
use syssoft_labs.Kcsh.Main.{Answers, reap, set_results, finish, main_round}

-- The lookups after a round: `_` is the line and `?` the code, and the others are as before.
abbrev pub IsRecorded : (err text : CString) → (before after : List Variable) → Type 0
IsRecorded err text before after =
    (getenv : CString → Option CString) (name : CString)
    → get_var getenv name after ≡ (
        if same (bytes "_") name
        then some text
        else if same (bytes "?") name
        then some err
        else get_var getenv name before)

-- Memory is granted for the variables and for the code.
abbrev pub HasMemory : Answers → Type 0
HasMemory a =
    (a.calls.name_granted ≡ true) × (a.calls.value_granted ≡ true) × (a.err_granted ≡ true)

question_known :
    (err w : CString) (vars vars' : List Variable)
    → set_var_force true true (bytes "?") err vars ≡ ok vars'
    → find (bytes "_") vars ≡ some w
    → find (bytes "_") vars' ≡ some w
unfolding same
question_known err w vars vars' e f =
    find-set_var_force true true (bytes "?") err vars vars' e (bytes "_") ∙ f

set_results_lem :
    (a : Answers) (err text : CString) (vars : List Variable) (v w : CString)
    → HasMemory a
    → find (bytes "?") vars ≡ some v
    → find (bytes "_") vars ≡ some w
    → (vars' : List Variable) × (set_results a err text vars ≡ ok vars')
      × IsRecorded err text vars vars'
unfolding set_results
set_results_lem a err text vars v w m f g =
    let (vars1, e1) = set_var_force-known (bytes "?") err v vars f in
    let (vars2, e2) =
      set_var_force-known (bytes "_") text w vars1 (question_known err w vars vars1 e1 g) in
    (
      vars2,
      rw (m.0, m.1) (ap (λ o. o >>= set_var_force true true (bytes "_") text) e1 ∙ e2),
      λ getenv name.
          get_var-set_var_force true true (bytes "_") text vars1 vars2 e2 getenv name
          ∙ ap (λ r. if same (bytes "_") name then some text else r)
              (get_var-set_var_force true true (bytes "?") err vars vars1 e1 getenv name),
    )

-- `finish` with an accepted line.
finish_lem :
    (a : Answers) (text : CString) (line : ℕ → ℕ) (sh : Shell) (n : ℕ) (v w : CString)
    → HasMemory a
    → Spells 0 text line
    → length text < line_size
    → sh.code ≡ pos n
    → n < 10 ^ 8
    → find (bytes "?") sh.process.vars ≡ some v
    → find (bytes "_") sh.process.vars ≡ some w
    → (vars : List Variable) × (err : CString) × (finish a true line sh
        ≡ ok (record sh { process = record sh.process { vars = vars } }))
      × IsNumeral n err
      × IsRecorded err text sh.process.vars vars
unfolding finish
finish_lem a text line sh n v w m s l c small f g =
    let (err, e, numeral) = errc_to_a-IsNumeral n small in
    let (vars, e', recorded) = set_results_lem a err text sh.process.vars v w m f g in
    (
      vars,
      err,
      ground (arith, m.2, c, e, string_from-Spells 0 text line s (omega (arith, l)), e'),
      numeral,
      recorded,
    )

-- A line without a dollar sign, shorter than its block, that is split and accepted, whose commands are
-- programs in the foreground: where every call succeeds, memory is granted, no job has ended, the shell
-- has a standard input and output and the variables `?` and `_`, and the last exit status is below
-- 10^8, a round of the loop of `main` runs every command with the files that the line asks for. Then
-- `?` is the exit status of the last one in decimal digits, `0` for 0, `_` is the line, and every other
-- variable is what it was.
pub main_round_lem :
    (a : Answers) (text : CString) (line : ℕ → ℕ) (tokens : List CString) (p : Parsed) (sh : Shell)
    (f g : File) (n : ℕ) (v w : CString)
    → HasMemory a
    → a.vec_granted ≡ true
    → a.dead_child ≡ none
    → ((j : ℕ) → IsWorking (a.system j))
    → Spells 0 text line
    → All (λ c. c ≢ b'$') text
    → length text < line_size
    → split_args true a.token_granted text ≡ ok tokens
    → make_cmdv a.cmd_granted (vector tokens) ≡ ok p
    → p.accepted ≡ true
    → All (IsForeground sh.builtins) p.commands
    → Std sh.files f g
    → last_code a.system 0 p.commands (pos 0) ≡ pos n
    → n < 10 ^ 8
    → find (bytes "?") sh.process.vars ≡ some v
    → find (bytes "_") sh.process.vars ≡ some w
    → (sh' : Shell) × (ss : List Started) × (err : CString) × (main_round a line sh ≡ ok sh')
      × (sh'.started ≡ sh.started ++ ss)
      × IsWired f g f 0 p.commands ss
      × IsNumeral n err
      × IsRecorded err text sh.process.vars sh'.process.vars
unfolding main_round reap
main_round_lem a text line tokens p sh f g n v w m vg dead works s plain l split parse accepted fore
      std last small known known' =
    let (sh1, ss, runs, starts, wired, kept, code) =
      run_line-IsWired a.system a.cmd_granted a.pipefd (vector tokens) p sh f g works parse accepted
        fore std in
    let vars_kept = ap (λ (q : Process). q.vars) kept.1 in
    let (vars, err, e, numeral, recorded) =
      finish_lem a text line sh1 n v w m s l (code ∙ last) small
        (ap (find (bytes "?")) vars_kept ∙ known) (ap (find (bytes "_")) vars_kept ∙ known') in
    (
      record sh1 { process = record sh1.process { vars = vars } },
      ss,
      err,
      ground (
        arith,
        dead,
        get_splitted-plain (a.calls.getenv sh.process.environ) sh.process.vars a.subs_granted
            a.buf_granted a.slack a.junk a.vec_granted a.token_granted text line s plain l vg,
        ap (λ b. split_args b a.token_granted text) vg,
        split,
        parse,
        runs,
        accepted,
        e,
      ),
      starts,
      wired,
      numeral,
      λ getenv name.
          recorded getenv name
          ∙ ap
              (λ (vs : List Variable).
                if same (bytes "_") name
                then some text
                else if same (bytes "?") name
                then some err
                else get_var getenv name vs)
              vars_kept,
    )
