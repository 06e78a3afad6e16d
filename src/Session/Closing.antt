-- ===== src/Session/Closing.antt =====
-- What the sections of Close and settleClose do to the attempts.
use montygo.Prelude.{
  Bool, List, Option, [], arith, if◌then◌else◌, length, none, refl, some, subst, suc, sym, true, ℕ,
  ◌++◌, ◌+◌, ◌==◌, ◌∷◌, ◌≡◌,
}
use montygo.Session.{Error, Execution, ExecutionPhase, Life}
use montygo.Session.Control.{CloseAttempt, attempts, begin_close, names, new_attempt, settle_at}
use montygo.Session.System.{System}
use montygo.Session.Ownership.{AllSettled, Attempting, RunsIf}
use montygo.Session.Phases.{Owned-same}

AllSettled-suc : (n : ℕ) (made : List CloseAttempt) → AllSettled n made → AllSettled (n + 1) made
AllSettled-suc n [] h = tt
AllSettled-suc n (a ∷ older) h = (h.0, h.1, omega (arith, h.2), AllSettled-suc n older h.3)

starts :
    (o : Option ℕ) (ids : List ℕ) (made : List CloseAttempt)
    → o ≡ none
    → Attempting o ids made
    → Attempting (some (length made)) (length made ∷ ids) (new_attempt (length made) ∷ made)
starts none [] made q h = (refl, refl, refl, refl, refl, h)
starts none (m ∷ ids) made q h = absurd h
starts (some n) ids made q h = absurd (ground arith)

pub begin_close-Attempting :
    (phase : Option ExecutionPhase) (run : Bool) (a : CloseAttempt) (life new : Life) (ids : List ℕ)
    (made : List CloseAttempt)
    → begin_close (length made) phase life ≡ (attempts run a, new)
    → Attempting life.close_attempt ids made
    → Attempting new.close_attempt (a.attempt_id ∷ ids) (a ∷ made)
unfolding begin_close
begin_close-Attempting phase run a life new ids made q h =
    let free : life.close_attempt ≡ none = ground arith in
    let same : a ≡ new_attempt (length made) = ground arith in
    let named : new.close_attempt ≡ some (length made) = ground arith in
    rw named (
      subst (λ b. Attempting (some (length made)) (b.attempt_id ∷ ids) (b ∷ made)) (sym same)
        (starts life.close_attempt ids made free h))

only_one :
    (m id : ℕ) (before after : List ℕ)
    → m ∷ [] ≡ before ++ id ∷ after
    → (before ≡ []) × (after ≡ []) × (m ≡ id)
only_one m id [] after q = ground arith
only_one m id (x ∷ []) after q = absurd (ground arith)
only_one m id (x ∷ y ∷ before) after q = absurd (ground arith)

no_one : (id : ℕ) (before after : List ℕ) → [] ≡ before ++ id ∷ after → ⊥
no_one id [] after q = ground arith
no_one id (x ∷ before) after q = ground arith

settles_one :
    (err : Option Error) (id n m : ℕ) (a : CloseAttempt) (older : List CloseAttempt)
    → m ≡ id
    → Attempting (some n) (m ∷ []) (a ∷ older)
    → Attempting (if names (some n) id then none else some n) [] (settle_at id err (a ∷ older))
unfolding settle_at
settles_one err id n m a older q h =
    let more = AllSettled-suc n older h.5 in
    let hit : (a.attempt_id == id) ≡ true = ground arith in
    let named : (n == id) ≡ true = ground arith in
    let bound : n + 1 ≡ suc (length older) = ground arith in
    rw (hit, named) (refl, ground arith, ground arith, subst (λ k. AllSettled k older) bound more)

pub settle_close-Attempting :
    (err : Option Error) (id : ℕ) (before after : List ℕ) (o : Option ℕ) (ids : List ℕ)
    (made : List CloseAttempt)
    → ids ≡ before ++ id ∷ after
    → Attempting o ids made
    → Attempting (if names o id then none else o) (before ++ after) (settle_at id err made)
settle_close-Attempting err id before after none [] made q h = absurd (no_one id before after q)
settle_close-Attempting err id before after none (m ∷ ids) made q h = absurd h
settle_close-Attempting err id before after (some n) [] made q h = absurd h
settle_close-Attempting err id before after (some n) (m ∷ []) [] q h = absurd h
settle_close-Attempting err id before after (some n) (m ∷ []) (a ∷ older) q h =
    let (front, back, same) = only_one m id before after q in
    rw (front, back) (settles_one err id n m a older same h)
settle_close-Attempting err id before after (some n) (m ∷ k ∷ ids) made q h = absurd h

-- Such a section leaves the execution, the terminal cause and the hands as they are.
pub attempting-RunsIf :
    (s : System) (life : Life) (made : List CloseAttempt) (ids : List ℕ) (o : Option Execution)
    → life.current ≡ s.life.current
    → life.terminal ≡ s.life.terminal
    → RunsIf s o
    → RunsIf (record s { life = life; attempts_made = made; attempters = ids }) o
attempting-RunsIf s life made ids none c t r = ground arith
attempting-RunsIf s life made ids (some e) c t r =
    let owned =
      Owned-same e.phase s (record s { life = life; attempts_made = made; attempters = ids })
        (ground arith) r.owned in
    ground arith
