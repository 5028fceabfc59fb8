-- ===== src/Multithread/Loops/Serial.antt =====
-- lab5/multithread6.c and lab5/multithread7.c: under the lock the bodies run one after the other, and
-- the third thread looks at the string between them.
use syssoft_labs.Prelude.{
  ℕ, ◌≡◌, ◌≢◌, refl, sym, ap, ◌∙◌, subst, some, [], ◌∷◌, All, All-append, arith,
}
use syssoft_labs.Multithread.Code.{Memory, Code, run}
use syssoft_labs.Multithread.Loops.{
  Guard, mutex, reader, unguarded, Held, free, shared, exclusive, wlock, rlock, unlock_held,
  take_lock, give_back, Reading, ret, look, read_all, Writer, idle, editing, Reader, resting,
  looking, WriterMove, begin, loads, stores, ends, World, ReaderMove, begins, looks, shows,
  WorldStep, first_moves, second_moves, third_moves, Runs, here, then_step, after_init_sync,
}

-- The strings that whole runs of the two bodies make out of `m`.
pub data Orbit (p q : Code) (m : Memory) : Memory → Type 0 where
  same_string : Orbit p q m m
  after_first : {n : Memory} → Orbit p q m n → Orbit p q m (run p n)
  after_second : {n : Memory} → Orbit p q m n → Orbit p q m (run q n)

-- A result that was read off one string of the orbit.
abbrev pub IsSnapshot : {A : Type 0} → (p q : Code) → Reading A → Memory → A → Type 0
IsSnapshot p q body m a = (n : Memory) × Orbit p q m n × (a ≡ read_all body n)

-- How the lock is held while the third thread is inside.
abbrev by_reader : Guard → Held
by_reader mutex = exclusive
by_reader reader = shared 1
by_reader unguarded = free

-- The code that is left makes of the string what the whole body makes of one of the orbit.
abbrev Completes : (p q body : Code) → Memory → Code → Memory → Type 0
Completes p q body m c n = (n' : Memory) × Orbit p q m n' × (run c n ≡ run body n')

module _ {A : Type 0} (g : Guard) (p q : Code) (body : Reading A) (m : Memory) where
  abbrev Stands : Writer → Writer → Reader A → Held → Memory → Type 0
  Stands idle idle resting h n = (h ≡ free) × Orbit p q m n
  Stands idle idle (looking r) h n =
      (h ≡ by_reader g) × Orbit p q m n × (read_all r n ≡ read_all body n)
  Stands (editing c) idle resting h n = (h ≡ exclusive) × Completes p q p m c n
  Stands idle (editing c) resting h n = (h ≡ exclusive) × Completes p q q m c n
  Stands (editing c) (editing d) t h n = ⊥
  Stands (editing c) idle (looking r) h n = ⊥
  Stands idle (editing c) (looking r) h n = ⊥

  abbrev StandsAt : World A → Type 0
  StandsAt x =
      Stands x.first x.second x.third x.held x.memory × All (IsSnapshot p q body m) x.results

wlock_lem : (h h' : Held) → wlock h ≡ some h' → (h ≡ free) × (h' ≡ exclusive)
unfolding wlock
wlock_lem free h' e = ground (arith, e)
wlock_lem (shared n) h' e = cc
wlock_lem exclusive h' e = cc

take_lock_lem :
    (g : Guard) (h h' : Held)
    → g ≢ unguarded
    → take_lock g h ≡ some h'
    → (h ≢ exclusive) × (h ≡ free → h' ≡ by_reader g)
unfolding take_lock wlock rlock
take_lock_lem unguarded h h' n e = absurd (n refl)
take_lock_lem mutex free h' n e = (λ e'. cc, λ _. cc)
take_lock_lem mutex (shared k) h' n e = cc
take_lock_lem mutex exclusive h' n e = cc
take_lock_lem reader free h' n e = (λ e'. cc, λ _. cc)
take_lock_lem reader (shared k) h' n e = (λ e'. cc, λ e'. cc)
take_lock_lem reader exclusive h' n e = cc

give_back_lem : (g : Guard) → g ≢ unguarded → give_back g (by_reader g) ≡ free
unfolding give_back unlock_held
give_back_lem mutex n = refl
give_back_lem reader n = refl
give_back_lem unguarded n = absurd (n refl)

free_exclusive : free ≢ exclusive
free_exclusive e = cc

by_reader_busy : (g : Guard) → g ≢ unguarded → by_reader g ≢ free
by_reader_busy mutex n e = cc
by_reader_busy reader n e = cc
by_reader_busy unguarded n e = n refl

module _ {A : Type 0} (g : Guard) (guarded : g ≢ unguarded) (p q : Code) (body : Reading A)
    (m : Memory) where
  first-Stands :
      {n n' : Memory} {h h' : Held} {t t' : Writer} (u : Writer) (v : Reader A)
      → WriterMove p n h t n' h' t'
      → Stands g p q body m t u v h n
      → Stands g p q body m t' u v h' n'
  unfolding unlock_held
  first-Stands {n} {h} {h'} idle resting (begin e) i = ((wlock_lem h h' e).1, (n, i.1, refl))
  first-Stands {h} {h'} idle (looking r) (begin e) i =
      absurd (by_reader_busy g guarded (sym i.0 ∙ (wlock_lem h h' e).0))
  first-Stands {h} {h'} (editing d) resting (begin e) i =
      absurd (free_exclusive (sym (wlock_lem h h' e).0 ∙ i.0))
  first-Stands (editing d) (looking r) (begin e) i = absurd i
  first-Stands idle resting loads i = i
  first-Stands idle (looking r) loads i = absurd i
  first-Stands (editing d) v loads i = absurd i
  first-Stands idle resting stores i = i
  first-Stands idle (looking r) stores i = absurd i
  first-Stands (editing d) v stores i = absurd i
  first-Stands idle resting ends i =
      (ap unlock_held i.0, subst (Orbit p q m) (sym i.1.2) (after_first i.1.1))
  first-Stands idle (looking r) ends i = absurd i
  first-Stands (editing d) v ends i = absurd i

  second-Stands :
      {n n' : Memory} {h h' : Held} {t t' : Writer} (u : Writer) (v : Reader A)
      → WriterMove q n h t n' h' t'
      → Stands g p q body m u t v h n
      → Stands g p q body m u t' v h' n'
  unfolding unlock_held
  second-Stands {n} {h} {h'} idle resting (begin e) i = ((wlock_lem h h' e).1, (n, i.1, refl))
  second-Stands {h} {h'} idle (looking r) (begin e) i =
      absurd (by_reader_busy g guarded (sym i.0 ∙ (wlock_lem h h' e).0))
  second-Stands {h} {h'} (editing d) resting (begin e) i =
      absurd (free_exclusive (sym (wlock_lem h h' e).0 ∙ i.0))
  second-Stands (editing d) (looking r) (begin e) i = absurd i
  second-Stands idle resting loads i = i
  second-Stands idle (looking r) loads i = absurd i
  second-Stands (editing d) v loads i = absurd i
  second-Stands idle resting stores i = i
  second-Stands idle (looking r) stores i = absurd i
  second-Stands (editing d) v stores i = absurd i
  second-Stands idle resting ends i =
      (ap unlock_held i.0, subst (Orbit p q m) (sym i.1.2) (after_second i.1.1))
  second-Stands idle (looking r) ends i = absurd i
  second-Stands (editing d) v ends i = absurd i

  -- The third thread, by where it is and where the others are.
  begins-Stands :
      (n : Memory) (h h' : Held) (t u : Writer)
      → take_lock g h ≡ some h'
      → Stands g p q body m t u resting h n
      → Stands g p q body m t u (looking body) h' n
  begins-Stands n h h' idle idle e i = ((take_lock_lem g h h' guarded e).1 i.0, i.1, refl)
  begins-Stands n h h' (editing c) idle e i = absurd ((take_lock_lem g h h' guarded e).0 i.0)
  begins-Stands n h h' idle (editing c) e i = absurd ((take_lock_lem g h h' guarded e).0 i.0)
  begins-Stands n h h' (editing c) (editing d) e i = i

  looks-Stands :
      (n : Memory) (h : Held) (j : ℕ) (k : ℕ → Reading A) (t u : Writer)
      → Stands g p q body m t u (looking (look j k)) h n
      → Stands g p q body m t u (looking (k (n j))) h n
  looks-Stands n h j k idle idle i = i
  looks-Stands n h j k (editing c) idle i = i
  looks-Stands n h j k idle (editing c) i = i
  looks-Stands n h j k (editing c) (editing d) i = i

  shows-Stands :
      (n : Memory) (h : Held) (a : A) (t u : Writer)
      → Stands g p q body m t u (looking (ret a)) h n
      → Stands g p q body m t u resting (give_back g h) n × IsSnapshot p q body m a
  shows-Stands n h a idle idle i =
      ((ap (give_back g) i.0 ∙ give_back_lem g guarded, i.1), (n, i.1, i.2))
  shows-Stands n h a (editing c) idle i = absurd i
  shows-Stands n h a idle (editing c) i = absurd i
  shows-Stands n h a (editing c) (editing d) i = absurd i

  at_third :
      {t : Reader A} (x : World A)
      → x.third ≡ t
      → Stands g p q body m x.first x.second x.third x.held x.memory
      → Stands g p q body m x.first x.second t x.held x.memory
  at_third x e i = subst (λ v. Stands g p q body m x.first x.second v x.held x.memory) e i

  ReaderMove-StandsAt :
      {x y : World A} → ReaderMove g body x y → StandsAt g p q body m x → StandsAt g p q body m y
  ReaderMove-StandsAt {x} (begins e l) i =
      (begins-Stands x.memory x.held _ x.first x.second l (at_third x e i.0), i.1)
  ReaderMove-StandsAt {x} (looks {i = j} {k = k} e) i =
      (looks-Stands x.memory x.held j k x.first x.second (at_third x e i.0), i.1)
  ReaderMove-StandsAt {x} (shows {a = a} e) i =
      let (s, r) = shows-Stands x.memory x.held a x.first x.second (at_third x e i.0) in
      (s, All-append (IsSnapshot p q body m) x.results (a ∷ []) i.1 (r, tt))

  WorldStep-StandsAt :
      {x y : World A} → WorldStep g p q body x y → StandsAt g p q body m x → StandsAt g p q body m y
  WorldStep-StandsAt {x} (first_moves mv) i = (first-Stands x.second x.third mv i.0, i.1)
  WorldStep-StandsAt {x} (second_moves mv) i = (second-Stands x.first x.third mv i.0, i.1)
  WorldStep-StandsAt (third_moves mv) i = ReaderMove-StandsAt mv i

  pub Runs-StandsAt :
      {x : World A} → Runs g p q body (after_init_sync m) x → StandsAt g p q body m x
  Runs-StandsAt here = ((refl, same_string), tt)
  Runs-StandsAt (then_step r st) = WorldStep-StandsAt st (Runs-StandsAt r)

  -- Every result of the third thread was read off one string of the orbit.
  pub results-IsSnapshot :
      {x : World A} → Runs g p q body (after_init_sync m) x → All (IsSnapshot p q body m) x.results
  results-IsSnapshot r = (Runs-StandsAt r).1
