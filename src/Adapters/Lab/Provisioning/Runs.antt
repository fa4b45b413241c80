-- ===== src/Adapters/Lab/Provisioning/Runs.antt =====
-- How far a provisioning run gets.
use wasi_webrtc_datachannels.Base.{
  ℕ, suc, ◌+◌, ◌≡◌, refl, ap, sym, subst, false≢true, length, Bool, true, false, Bool-cases, inl,
  inr, ◌&&◌, not, List, [], ◌∷◌, ◌++◌, arith,
}
use wasi_webrtc_datachannels.Adapters.Lab.Provisioning.{Step, can_fail, run_all}

-- Every step that can fail works, counted from the `n`th.
abbrev pub Worked : (ℕ → Bool) → ℕ → List Step → Type 0
Worked works n [] = Unit
Worked works n (s ∷ ss) = ((can_fail s && not (works n)) ≡ false) × Worked works (suc n) ss

-- The step at which a run stopped.
pub record StoppedAt (works : ℕ → Bool) (n : ℕ) (steps tried : List Step) : Type 0 where
  pub before : List Step
  pub failed : Step
  pub after : List Step
  pub planned : steps ≡ before ++ failed ∷ after
  pub tried_until : tried ≡ before ++ failed ∷ []
  pub worked : Worked works n before
  pub broke : (can_fail failed && not (works (n + length before))) ≡ true

shift : (n k : ℕ) → suc n + k ≡ n + suc k
shift n k = omega arith

at_once : (n : ℕ) → n ≡ n + 0
at_once n = omega arith

later :
    {works : ℕ → Bool} {n : ℕ} {steps tried : List Step} (s : Step)
    → (can_fail s && not (works n)) ≡ false
    → StoppedAt works (suc n) steps tried
    → StoppedAt works n (s ∷ steps) (s ∷ tried)
later {works} {n} s e q = record {
  before = s ∷ q.before;
  failed = q.failed;
  after = q.after;
  planned = ap (λ l. s ∷ l) q.planned;
  tried_until = ap (λ l. s ∷ l) q.tried_until;
  worked = (e, q.worked);
  broke =
      subst (λ k. (can_fail q.failed && not (works k)) ≡ true) (shift n (length q.before)) q.broke;
}

-- A run of steps goes well exactly through all of them; otherwise it stops at the first step that
-- can fail and does, after it has tried every step before.
pub run_all_outcome :
    (works : ℕ → Bool) (n : ℕ) (steps : List Step)
    → ((run_all works n steps).0 ≡ true
        → ((run_all works n steps).1 ≡ steps) × Worked works n steps)
      × ((run_all works n steps).0 ≡ false → StoppedAt works n steps (run_all works n steps).1)
unfolding run_all
run_all_outcome works n [] = (λ e. (refl, tt), λ e. absurd (false≢true (sym e)))
run_all_outcome works n (s ∷ steps) = elim (Bool-cases (can_fail s && not (works n))) [
  | inl bad ↦ rw bad (
    λ e. absurd (false≢true e),
    λ e. record {
      before = [];
      failed = s;
      after = steps;
      planned = refl;
      tried_until = refl;
      worked = tt;
      broke = subst (λ k. (can_fail s && not (works k)) ≡ true) (at_once n) bad;
    },
  )
  | inr good ↦
      let rest = run_all_outcome works (suc n) steps in
      rw good
        (λ e. (ap (λ l. s ∷ l) (rest.0 e).0, (refl, (rest.0 e).1)), λ e. later s good (rest.1 e))
]
