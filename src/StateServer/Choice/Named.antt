-- ===== src/StateServer/Choice/Named.antt =====
-- The names and the arguments of a program of lab5/server.c that start a server.
use syssoft_labs.Prelude.{
  ◌≡◌, ◌≢◌, ◌↔◌, ◌⊎◌, inl, inr, refl, sym, ap, ◌∙◌, Bool-cases, List, [], ◌∷◌, ◌++◌, arith,
  if◌then◌else◌,
}
use syssoft_labs.Prelude.CString.{CString, bytes, same, same_iff}
use syssoft_labs.StateServer.{Mode, shm, msg, mmap}
use syssoft_labs.Prelude.BaseName.{base_name, HasNoSlash, base_name-append, base_name-HasNoSlash}
use syssoft_labs.StateServer.Choice.{
  chosen, usage, null_string, choose_by_word, choose_by_name, choose_server,
}

-- The words that ask for a server.
abbrev pub word_of : Mode → CString
word_of shm = bytes "shm"
word_of msg = bytes "msg"
word_of mmap = bytes "mmap"

abbrev pub AsksFor : Mode → CString → List CString → Type 0
AsksFor m name args =
    ((name ≡ word_of m ++ bytes "server") × (args ≡ []))
    ⊎ ((name ≡ bytes "server") × (args ≡ word_of m ∷ []))

chosen_by_word : (word : CString) (m : Mode) → choose_by_word word ≡ chosen m → word ≡ word_of m
unfolding choose_by_word
chosen_by_word word shm e = ground (arith, e, same_iff word (bytes "shm"))
chosen_by_word word msg e = ground (arith, e, same_iff word (bytes "msg"))
chosen_by_word word mmap e = ground (arith, e, same_iff word (bytes "mmap"))

chosen_by_name :
    (name : CString) (m : Mode)
    → choose_by_name name ≡ chosen m
    → name ≡ word_of m ++ bytes "server"
unfolding choose_by_name
chosen_by_name name shm e = ground (arith, e, same_iff name (bytes "shmserver"))
chosen_by_name name msg e = ground (arith, e, same_iff name (bytes "msgserver"))
chosen_by_name name mmap e = ground (arith, e, same_iff name (bytes "mmapserver"))

choose_by_word-word_of : (m : Mode) → choose_by_word (word_of m) ≡ chosen m
unfolding choose_by_word same
choose_by_word-word_of shm = refl
choose_by_word-word_of msg = refl
choose_by_word-word_of mmap = refl

choose_by_name-word_of : (m : Mode) → choose_by_name (word_of m ++ bytes "server") ≡ chosen m
unfolding choose_by_name same
choose_by_name-word_of shm = refl
choose_by_name-word_of msg = refl
choose_by_name-word_of mmap = refl

nulled_by_name : (name : CString) → choose_by_name name ≡ null_string → name ≡ bytes "server"
unfolding choose_by_name
nulled_by_name name e = ground (arith, e, same_iff name (bytes "server"))

choose_by_word-null_string : (word : CString) → choose_by_word word ≢ null_string
unfolding choose_by_word
choose_by_word-null_string word e = ground (arith, e)

-- What `main` of the server does, by the name behind the last slash.
abbrev pub Chooses : CString → CString → List CString → Type 0
Chooses argv0 name args =
    ((m : Mode) → (choose_server argv0 args ≡ chosen m) ↔ AsksFor m name args)
    × ((choose_server argv0 args ≡ null_string) ↔ ((name ≡ bytes "server") × (args ≡ [])))

asked :
    (argv0 name : CString) (args : List CString) (m : Mode)
    → base_name argv0 ≡ name
    → AsksFor m name args
    → choose_server argv0 args ≡ chosen m
unfolding choose_server same
asked argv0 name args m b (inl (e, a)) =
    ap (choose_server argv0) a ∙ ap choose_by_name (b ∙ e) ∙ choose_by_name-word_of m
asked argv0 name args m b (inr (e, a)) =
    ap (choose_server argv0) a
    ∙ ap (λ bname. if same bname (bytes "server") then choose_by_word (word_of m) else usage)
        (b ∙ e)
    ∙ choose_by_word-word_of m

asks :
    (argv0 name : CString) (args : List CString) (m : Mode)
    → base_name argv0 ≡ name
    → choose_server argv0 args ≡ chosen m
    → AsksFor m name args
unfolding choose_server
asks argv0 name [] m b e = inl (chosen_by_name name m (ap choose_by_name (sym b) ∙ e), refl)
asks argv0 name (word ∷ []) m b e = elim (Bool-cases (same (base_name argv0) (bytes "server"))) [
  | inl y ↦ inr (
    sym b ∙ (same_iff (base_name argv0) (bytes "server")).0 y,
    ap (λ w. w ∷ []) (chosen_by_word word m (ground (arith, y, e))),
  )
  | inr n ↦ absurd (ground (arith, n, e))
]
asks argv0 name (word ∷ word' ∷ more) m b e = absurd (ground (arith, e))

nulls :
    (argv0 name : CString) (args : List CString)
    → base_name argv0 ≡ name
    → choose_server argv0 args ≡ null_string
    → (name ≡ bytes "server") × (args ≡ [])
unfolding choose_server
nulls argv0 name [] b e = (nulled_by_name name (ap choose_by_name (sym b) ∙ e), refl)
nulls argv0 name (word ∷ []) b e = absurd (ground (arith, e, choose_by_word-null_string word))
nulls argv0 name (word ∷ word' ∷ more) b e = absurd (ground (arith, e))

nulled :
    (argv0 name : CString) (args : List CString)
    → base_name argv0 ≡ name
    → (name ≡ bytes "server") × (args ≡ [])
    → choose_server argv0 args ≡ null_string
unfolding choose_server choose_by_name same
nulled argv0 name args b (e, a) = ap (choose_server argv0) a ∙ ap choose_by_name (b ∙ e)

base_name-Chooses :
    (argv0 name : CString) (args : List CString) → base_name argv0 ≡ name → Chooses argv0 name args
base_name-Chooses argv0 name args b = (
  λ m. (asks argv0 name args m b, asked argv0 name args m b),
  (nulls argv0 name args b, nulled argv0 name args b),
)

-- A server is started in a mode exactly where the program has the name of that server and no argument,
-- or the name `server` and the mode as its argument; it reads a string at NULL exactly where it has the
-- name `server` and no argument. The name is what stands behind the last slash of `v[0]`.
pub choose_server_lem :
    (dir name : CString) (args : List CString)
    → HasNoSlash name
    → Chooses name name args × Chooses (dir ++ b'/' ∷ name) name args
choose_server_lem dir name args h = (
  base_name-Chooses name name args (base_name-HasNoSlash name h),
  base_name-Chooses (dir ++ b'/' ∷ name) name args (base_name-append dir name h),
)
