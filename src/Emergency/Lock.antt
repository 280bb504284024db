-- ===== src/Emergency/Lock.antt =====
-- `withEmergencyLock` of src/emergency.mts: several processes that take turns by a lock file. Each call of
-- the file system is one step. The file's inode and time are a number that no other lock file has.
pub mod Exclusion
mod Tests
use agent_context_broker.Prelude.{
  ℕ, suc, Bool, true, false, ◌⊎◌, ◌≡◌, ◌≢◌, ◌==◌, Option, none, some, if◌then◌else◌,
}

-- Where a process stands: before the loop's next round; with a lock file that it has seen; with one that
-- it has judged abandoned; with one that it has seen unchanged after that, and is about to remove; in the
-- action; or gone without its `finally`.
pub data Place : Type 0 where
  waiting : Place
  seen : ℕ → Place
  judged : ℕ → Place
  removing : ℕ → Place
  holding : ℕ → Place
  gone : ℕ → Place

-- `old`: the lock file was made more than `LOCK_STALE_MS` ago.
pub record State : Type 0 where
  pub file : Option ℕ
  pub next : ℕ
  pub old : ℕ → Bool
  pub places : ℕ → Place

abbrev pub move : ℕ → Place → (ℕ → Place) → ℕ → Place
move p x places q = if q == p then x else places q

-- `openSync(path, 'wx')` makes the file.
abbrev pub acquired : ℕ → State → State
acquired p s = record {
  file = some s.next;
  next = suc s.next;
  old = s.old;
  places = move p (holding s.next) s.places;
}

abbrev pub moved : ℕ → Place → State → State
moved p x s = record { file = s.file; next = s.next; old = s.old; places = move p x s.places }

-- `unlinkSync(path)` removes the file that is there, whichever it is.
abbrev pub unlinked : ℕ → State → State
unlinked p s = record { file = none; next = s.next; old = s.old; places = move p waiting s.places }

abbrev pub mark : ℕ → (ℕ → Bool) → ℕ → Bool
mark n old m = if m == n then true else old m

abbrev pub aged : ℕ → State → State
aged n s = record { file = s.file; next = s.next; old = mark n s.old; places = s.places }

-- `lockOwnerGone`: the lock file is old, or no process that lives holds its lock.
abbrev pub IsAbandoned : State → ℕ → Type 0
IsAbandoned s n = (s.old n ≡ true) ⊎ ((q : ℕ) → s.places q ≢ holding n)

pub data Step : State → State → Type 0 where
  acquire : (s : State) (p : ℕ) → s.places p ≡ waiting → s.file ≡ none → Step s (acquired p s)
  -- 30 seconds pass after the file was made.
  grow_old : (s : State) (n : ℕ) → s.file ≡ some n → Step s (aged n s)
  -- `seen = statSync(path)`
  look :
      (s : State) (p n : ℕ) → s.places p ≡ waiting → s.file ≡ some n → Step s (moved p (seen n) s)
  -- `lockOwnerGone(path)` reads the file that is there now.
  judge :
      (s : State) (p n m : ℕ)
      → s.places p ≡ seen n
      → s.file ≡ some m
      → IsAbandoned s m
      → Step s (moved p (judged n) s)
  -- The lock is not found abandoned, or its file has gone.
  wait : (s : State) (p n : ℕ) → s.places p ≡ seen n → Step s (moved p waiting s)
  -- `current.ino === seen.ino && current.mtimeMs === seen.mtimeMs`
  unchanged :
      (s : State) (p n : ℕ)
      → s.places p ≡ judged n
      → s.file ≡ some n
      → Step s (moved p (removing n) s)
  changed :
      (s : State) (p n : ℕ) → s.places p ≡ judged n → s.file ≢ some n → Step s (moved p waiting s)
  -- `unlinkSync(path)`
  remove : (s : State) (p n : ℕ) → s.places p ≡ removing n → Step s (unlinked p s)
  -- `finally`
  release : (s : State) (p n : ℕ) → s.places p ≡ holding n → Step s (unlinked p s)
  crash : (s : State) (p n : ℕ) → s.places p ≡ holding n → Step s (moved p (gone n) s)

abbrev pub initial : State
initial = record { file = none; next = 0; old = λ n. false; places = λ q. waiting }

-- What steps lead to.
pub data Reaches : State → Type 0 where
  reaches_initial : Reaches initial
  reaches_step : (s t : State) → Reaches s → Step s t → Reaches t

-- A process compares the file with the one that it has seen.
abbrev pub IsCheck : {s t : State} → ℕ → Step s t → Type 0
IsCheck p (unchanged s q n e file) = q ≡ p
IsCheck p _ = ⊥

abbrev pub IsRemoval : {s t : State} → ℕ → Step s t → Type 0
IsRemoval p (remove s q n e) = q ≡ p
IsRemoval p _ = ⊥

-- A step that is none of a reclaim's last two; and no lock file grows old under a process that lives.
abbrev pub IsPrompt : {s t : State} → Step s t → Type 0
IsPrompt (grow_old s n file) = (q : ℕ) → s.places q ≢ holding n
IsPrompt (unchanged s p n e file) = ⊥
IsPrompt (remove s p n e) = ⊥
IsPrompt _ = Unit

-- The same where each removal of a lock file directly follows the check of the process that removes it.
pub data ReachesPrompt : State → Type 0 where
  prompt_initial : ReachesPrompt initial
  prompt_step : (s t : State) → ReachesPrompt s → (x : Step s t) → IsPrompt x → ReachesPrompt t
  prompt_reclaim :
      (s t u : State) (p : ℕ)
      → ReachesPrompt s
      → (x : Step s t) → (y : Step t u) → IsCheck p x
      → IsRemoval p y
      → ReachesPrompt u
