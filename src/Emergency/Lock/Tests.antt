-- ===== src/Emergency/Lock/Tests.antt =====
-- A lock that a crash leaves behind and another process reclaims, and one that is held for too long.
use agent_context_broker.Prelude.{ℕ, ◌≡◌, ◌≢◌, refl, some, Bool-cases, inl, inr, ◌==◌, arith}
use agent_context_broker.Emergency.Lock.{
  seen, judged, removing, holding, gone, State, acquired, moved, unlinked, aged, acquire, grow_old,
  look, judge, unchanged, remove, crash, initial, Reaches, reaches_initial, reaches_step,
  ReachesPrompt, prompt_initial, prompt_step, prompt_reclaim,
}
use agent_context_broker.Emergency.Lock.Exclusion.{ReachesPrompt-single_holder}

-- Process 0 takes the lock and crashes.
abbrev taken : State
taken = acquired 0 initial

abbrev left_behind : State
left_behind = moved 0 (gone 0) taken

nobody_lives : (q : ℕ) → left_behind.places q ≢ holding 0
nobody_lives q = elim (Bool-cases (q == 0)) [
  | inl zero_is ↦ rw zero_is (ground arith)
  | inr other ↦ rw other (ground arith)
]

-- Process 1 sees it, judges it, looks again, removes the file and takes the lock.
abbrev seen_once : State
seen_once = moved 1 (seen 0) left_behind

abbrev judged_once : State
judged_once = moved 1 (judged 0) seen_once

abbrev checked_once : State
checked_once = moved 1 (removing 0) judged_once

abbrev reclaimed : State
reclaimed = acquired 1 (unlinked 1 checked_once)

still_nobody : (q : ℕ) → seen_once.places q ≢ holding 0
still_nobody q = elim (Bool-cases (q == 1)) [
  | inl one_is ↦ rw one_is (ground arith)
  | inr other ↦ rw other (nobody_lives q)
]

reclaimed_prompt : ReachesPrompt reclaimed
reclaimed_prompt =
    let begun = prompt_step _ _ prompt_initial (acquire initial 0 refl refl) tt in
    let left = prompt_step _ _ begun (crash taken 0 0 refl) tt in
    let looked = prompt_step _ _ left (look left_behind 1 0 refl refl) tt in
    let found = prompt_step _ _ looked (judge seen_once 1 0 0 refl refl (inr still_nobody)) tt in
    let cleared =
      prompt_reclaim _ _ _ 1 found (unchanged judged_once 1 0 refl refl)
        (remove checked_once 1 0 refl) refl refl in
    prompt_step _ _ cleared (acquire (unlinked 1 checked_once) 1 refl refl) tt

ReachesPrompt-single_holder_example :
    (◌≡◌ {A = ℕ} 1 1) × (◌≡◌ {A = ℕ} 1 1) × (reclaimed.file ≡ some 1)
ReachesPrompt-single_holder_example =
    ReachesPrompt-single_holder reclaimed 1 1 1 1 reclaimed_prompt refl refl

-- Process 0 holds the lock for more than 30 seconds, and process 1 takes it from it.
abbrev overdue : State
overdue = aged 0 taken

abbrev overdue_judged : State
overdue_judged = moved 1 (judged 0) (moved 1 (seen 0) overdue)

abbrev two_inside : State
two_inside = acquired 1 (unlinked 1 (moved 1 (removing 0) overdue_judged))

two_holders :
    Reaches two_inside × (two_inside.places 0 ≡ holding 0) × (two_inside.places 1 ≡ holding 1)
two_holders =
    let begun = reaches_step _ _ reaches_initial (acquire initial 0 refl refl) in
    let waited = reaches_step _ _ begun (grow_old taken 0 refl) in
    let looked = reaches_step _ _ waited (look overdue 1 0 refl refl) in
    let found =
      reaches_step _ _ looked (judge (moved 1 (seen 0) overdue) 1 0 0 refl refl (inl refl)) in
    let checked = reaches_step _ _ found (unchanged overdue_judged 1 0 refl refl) in
    let cleared =
      reaches_step _ _ checked (remove (moved 1 (removing 0) overdue_judged) 1 0 refl) in
    (
      reaches_step _ _ cleared
          (acquire (unlinked 1 (moved 1 (removing 0) overdue_judged)) 1 refl refl),
      refl,
      refl,
    )
