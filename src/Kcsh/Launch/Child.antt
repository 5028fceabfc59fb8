-- ===== src/Kcsh/Launch/Child.antt =====
-- lab4/kcsh.c, `fork_and_exec`: the files with which a program starts.
use syssoft_labs.Prelude.{
  ℕ, ◌≡◌, ◌≢◌, refl, ◌∙◌, inl, inr, Bool-cases, Option-cases, true, none, some, arith,
  if◌then◌else◌, ℕ_discrete,
}
use syssoft_labs.Prelude.CString.{CString}
use syssoft_labs.Kcsh.Outcome.{ok}
use syssoft_labs.Kcsh.Command.{Cmd}
use syssoft_labs.Kcsh.Launch.{
  File, to_read, to_write, to_append, Files, file_at, put_file, System, on, take_input, take_output,
  close_pipe, redirect_to, redirect_output, redirect_input, child,
}

-- Every call succeeds, and a new descriptor is one that was not in use.
pub record IsWorking (s : System) : Type 0 where
  pub dups : (call : ℕ) → s.dup_granted call ≡ true
  pub forks : s.fork_granted ≡ true
  pub execs : s.exec_granted ≡ true
  pub opens :
      (files : Files) (name : CString)
      → (fd : ℕ) × (s.open_file files name ≡ some fd) × (file_at files fd ≡ none)
  pub pipes :
      (files : Files)
      → (r : ℕ) × (w : ℕ) × (s.pipe files ≡ some (r, w))
        × (file_at files r ≡ none)
        × (file_at files w ≡ none)
        × (r ≢ w)

-- a descriptor that is neither standard input nor standard output
abbrev pub IsOther : ℕ → Type 0
IsOther fd = (fd ≢ 0) × (fd ≢ 1)

-- Standard input and output.
abbrev pub Std : Files → File → File → Type 0
Std files f g = (file_at files 0 ≡ some f) × (file_at files 1 ≡ some g)

-- A file name is set where a redirection wants one.
abbrev pub HasNames : Cmd → Type 0
HasNames c = (c.redirect ≡ true → c.rfilename ≢ none) × (c.redirect_in ≡ true → c.rifilename ≢ none)

-- The files that the redirections of a command put in the place of others.
abbrev pub input_of : Cmd → File → File
input_of c f =
    if c.redirect_in then (elim c.rifilename [ none ↦ f | some name ↦ to_read name ]) else f

abbrev pub output_of : Cmd → File → File
output_of c f =
    if c.redirect
    then (elim c.rfilename [
      | none ↦ f
      | some name ↦ if c.rappend then to_append name else to_write name
    ])
    else f

module _ (s : System) (works : IsWorking s) (pipefd : ℕ × ℕ) (c : Cmd) where
  take_input_lem :
      (files : Files) (f g h : File)
      → Std files f g
      → (c.in_fd ≡ 0 → h ≡ f)
      → (c.in_fd ≢ 0 → file_at files c.in_fd ≡ some h)
      → (files' : Files) × (take_input s pipefd c files ≡ ok (on files'))
        × Std files' h g
        × ((j : ℕ) → j ≢ 0 → file_at files' j ≡ file_at files j)
  unfolding take_input
  take_input_lem files f g h i same pipe = elim (ℕ_discrete c.in_fd 0) [
    | yes z ↦ (files, ground (arith, z), (ground (arith, i.0, same z), i.1), λ j n. refl)
    | no n ↦ (
      put_file files 0 (some h),
      ground (arith, n, pipe n, works.dups 0),
      (refl, i.1),
      λ j m. ground (arith, m),
    )
  ]

  take_output_lem :
      (files : Files) (f g h : File)
      → Std files f g
      → (c.out_fd ≡ 1 → h ≡ g)
      → (c.out_fd ≢ 1 → file_at files c.out_fd ≡ some h)
      → (files' : Files) × (take_output s pipefd c files ≡ ok (on files')) × Std files' f h
  unfolding take_output
  take_output_lem files f g h i same pipe = elim (ℕ_discrete c.out_fd 1) [
    | yes z ↦ (files, ground (arith, z), (i.0, ground (arith, i.1, same z)))
    | no n ↦ (put_file files 1 (some h), ground (arith, n, pipe n, works.dups 1), (i.0, refl))
  ]

  close_pipe_lem :
      (files : Files) (f g : File)
      → Std files f g
      → (c.in_fd ≢ 0 → IsOther pipefd.0)
      → (c.out_fd ≢ 1 → IsOther pipefd.1)
      → Std (close_pipe s pipefd c files) f g
  unfolding close_pipe
  close_pipe_lem files f g i p q = elim (ℕ_discrete c.in_fd 0) [
    | yes y ↦ elim (ℕ_discrete c.out_fd 1) [
      | yes z ↦ (ground (arith, y, z, i.0), ground (arith, y, z, i.1))
      | no z ↦ (ground (arith, y, z, i.0, q z), ground (arith, y, z, i.1, q z))
    ]
    | no y ↦ elim (ℕ_discrete c.out_fd 1) [
      | yes z ↦ (ground (arith, y, z, i.0, p y), ground (arith, y, z, i.1, p y))
      | no z ↦ (ground (arith, y, z, i.0, p y, q z), ground (arith, y, z, i.1, p y, q z))
    ]
  ]

  redirect_to_lem :
      (call target other : ℕ) (name : CString) (f g h : File) (files : Files)
      → file_at files target ≡ some g
      → file_at files other ≡ some h
      → target ≢ other
      → (files' : Files) × (redirect_to s pipefd c call target name f files ≡ ok (on files'))
        × (file_at files' target ≡ some f)
        × (file_at files' other ≡ some h)
  unfolding redirect_to
  redirect_to_lem call target other name f g h files t o n =
      let (fd, e, z) = works.opens files name in
      let opened = put_file files fd (some f) in
      (
        put_file (put_file opened target (some f)) fd none,
        ground (arith, e, works.dups call),
        ground (arith, z, t),
        ground (arith, z, o, n),
      )

  redirect_output_lem :
      (files : Files) (f g : File)
      → Std files f g
      → HasNames c
      → (files' : Files) × (redirect_output s pipefd c files ≡ ok (on files'))
        × Std files' f (output_of c g)
  unfolding redirect_output
  redirect_output_lem files f g i set = elim (Bool-cases c.redirect) [
    | inr e ↦ (files, ground (arith, e), (i.0, ground (arith, e, i.1)))
    | inl e ↦ elim (Option-cases c.rfilename) [
      | inl n ↦ absurd (set.0 e n)
      | inr (name, n) ↦
          let (files', r, a, b) =
            redirect_to_lem 2 1 0 name (if c.rappend then to_append name else to_write name) g f
              files i.1 i.0 (omega arith) in
          (files', ground (arith, e, n, r), (b, ground (arith, e, n, a)))
    ]
  ]

  redirect_input_lem :
      (files : Files) (f g : File)
      → Std files f g
      → HasNames c
      → (files' : Files) × (redirect_input s pipefd c files ≡ ok (on files'))
        × Std files' (input_of c f) g
  unfolding redirect_input
  redirect_input_lem files f g i set = elim (Bool-cases c.redirect_in) [
    | inr e ↦ (files, ground (arith, e), (ground (arith, e, i.0), i.1))
    | inl e ↦ elim (Option-cases c.rifilename) [
      | inl n ↦ absurd (set.1 e n)
      | inr (name, n) ↦
          let (files', r, a, b) =
            redirect_to_lem 3 0 1 name (to_read name) f g files i.0 i.1 (omega arith) in
          (files', ground (arith, e, n, r), (ground (arith, e, n, a), b))
    ]
  ]

  -- The files of the program: what `in` and `out` stand for, or what a redirection puts there.
  pub child_lem :
      (files : Files) (f g h k : File)
      → Std files f g
      → (c.in_fd ≡ 0 → h ≡ f)
      → (c.in_fd ≢ 0 → (file_at files c.in_fd ≡ some h) × IsOther pipefd.0)
      → (c.out_fd ≡ 1 → k ≡ g)
      → (c.out_fd ≢ 1 → (file_at files c.out_fd ≡ some k) × (c.out_fd ≢ 0) × IsOther pipefd.1)
      → HasNames c
      → (files' : Files) × (child s pipefd c files ≡ ok (on files'))
        × Std files' (input_of c h) (output_of c k)
  unfolding child
  child_lem files f g h k i si pi so po set =
      let (a, ea, ia, rest) = take_input_lem files f g h i si (λ n. (pi n).0) in
      let (b, eb, ib) = take_output_lem a h g k ia so (λ n. rest c.out_fd (po n).1 ∙ (po n).0) in
      let ic = close_pipe_lem b h k ib (λ n. (pi n).1) (λ n. (po n).2) in
      let (d, ed, id) = redirect_output_lem (close_pipe s pipefd c b) h k ic set in
      let (e, ee, ie) = redirect_input_lem d h (output_of c k) id set in
      (e, ground (arith, ea, eb, ed, ee), ie)
