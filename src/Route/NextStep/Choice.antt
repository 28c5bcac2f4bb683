-- ===== src/Route/NextStep/Choice.antt =====
-- What next-step.ts decides: which candidate wins, and which template step comes next.
use mathlib.Core.Option
use laundry_api.Base.{
  ℕ, ◌≤◌, ◌<◌, ◌≡◌, refl, Option, none, some, List, [], ◌∷◌, Memᴰ, arith, ◌⊎◌, inl, inr, ltb,
  IsSorted, All, Bool-cases, ltb→lt,
}
use laundry_api.Route.Types.{StepCandidate, NextStepDecision, route, override}
use laundry_api.Route.NextStep.{
  TemplateStep, candidate_of, find_next_template_step, next_template_step, pick_next_step,
}

-- What a decision between the candidates `o` (of the override) and `r` (of the route) must be.
abbrev pub Wins : Option StepCandidate → Option StepCandidate → Option NextStepDecision → Type 0
Wins o r none = (o ≡ none) × (r ≡ none)
Wins o r (some d) =
    ((d.source ≡ override)
      × (o ≡ some d.step)
      × ((s : StepCandidate) → r ≡ some s → d.step.sort_order < s.sort_order))
    ⊎ ((d.source ≡ route)
        × (r ≡ some d.step)
        × ((s : StepCandidate) → o ≡ some s → d.step.sort_order ≤ s.sort_order))

-- The decision is one of the candidates, marked with its source; the override wins only with a
-- smaller sort order than the route's, the route wins ties, and there is no decision exactly when
-- there is no candidate.
pub pick_next_step-Wins :
    (o r : Option StepCandidate)
    → Wins o r (pick_next_step o r) × (Wins o r none → pick_next_step o r ≡ none)
unfolding pick_next_step
pick_next_step-Wins none none = ((refl, refl), λ w. refl)
pick_next_step-Wins none (some r) = (inr (refl, refl, λ s e. cc), λ w. cc)
pick_next_step-Wins (some o) none = (inl (refl, refl, λ s e. cc), λ w. cc)
pick_next_step-Wins (some o) (some r) = elim (Bool-cases (ltb o.sort_order r.sort_order)) [
  | inl less ↦ (rw less (inl (refl, refl, λ s e. ground arith)), λ w. cc)
  | inr more ↦ (rw more (inr (refl, refl, λ s e. ground arith)), λ w. cc)
]

-- The first step past an offset, in steps that are ordered by it, is the least one past it.
abbrev pub IsNextOf : ℕ → List TemplateStep → Option TemplateStep → Type 0
IsNextOf offset steps none = (s : TemplateStep) → Memᴰ s steps → s.offset ≤ offset
IsNextOf offset steps (some t) =
    Memᴰ t steps
    × (offset < t.offset)
    × ((s : TemplateStep) → Memᴰ s steps → offset < s.offset → t.offset ≤ s.offset)

All-mem :
    (n : ℕ) (steps : List TemplateStep) {s : TemplateStep}
    → All (λ y. n ≤ y.offset) steps
    → Memᴰ s steps
    → n ≤ s.offset
All-mem n [] a m = elim m [ ]
All-mem n (x ∷ steps) a (Memᴰ.head e) = rw e a.0
All-mem n (x ∷ steps) a (Memᴰ.tail m) = All-mem n steps a.1 m

IsNextOf-cons :
    (offset : ℕ) (x : TemplateStep) (steps : List TemplateStep) (o : Option TemplateStep)
    → x.offset ≤ offset
    → IsNextOf offset steps o
    → IsNextOf offset (x ∷ steps) o
IsNextOf-cons offset x steps none le h = above
  where
    above : (s : TemplateStep) → Memᴰ s (x ∷ steps) → s.offset ≤ offset
    above s (Memᴰ.head e) = rw e le
    above s (Memᴰ.tail m) = h s m
IsNextOf-cons offset x steps (some t) le h = (Memᴰ.tail h.0, h.1, least)
  where
    least : (s : TemplateStep) → Memᴰ s (x ∷ steps) → offset < s.offset → t.offset ≤ s.offset
    least s (Memᴰ.head e) lt = absurd (omega (arith, rw e at lt))
    least s (Memᴰ.tail m) lt = h.2 s m lt

first-IsNextOf :
    (offset : ℕ) (x : TemplateStep) (steps : List TemplateStep)
    → IsSorted (λ s. s.offset) (x ∷ steps)
    → offset < x.offset
    → IsNextOf offset (x ∷ steps) (some x)
first-IsNextOf offset x steps sorted lt = (Memᴰ.head refl, lt, least)
  where
    least : (s : TemplateStep) → Memᴰ s (x ∷ steps) → offset < s.offset → x.offset ≤ s.offset
    least s (Memᴰ.head e) h = rw e (omega arith)
    least s (Memᴰ.tail m) h = All-mem x.offset steps sorted.0 m

-- The first step past an offset, in steps ordered by their offsets, is the least one past it; there
-- is none exactly when no step is past it.
pub next_template_step-IsNextOf :
    (steps : List TemplateStep) (offset : ℕ)
    → IsSorted (λ s. s.offset) steps
    → IsNextOf offset steps (next_template_step steps offset)
next_template_step-IsNextOf [] offset sorted = λ s m. elim m [ ]
next_template_step-IsNextOf (x ∷ steps) offset sorted = elim (Bool-cases (ltb offset x.offset)) [
  | inl hit ↦ rw hit (first-IsNextOf offset x steps sorted (ltb→lt _ _ hit))
  | inr miss ↦ rw miss (
      IsNextOf-cons offset x steps (next_template_step steps offset) (ground arith)
        (next_template_step-IsNextOf steps offset sorted.1))
]

-- On steps ordered by offset, `findNextTemplateStep` returns the least step past the current offset,
-- at the override's base plus the step's offset and under the override's id; it returns null exactly
-- when every step's offset is at most the current one.
pub find_next_template_step_least :
    (steps : List TemplateStep) (offset base id : ℕ)
    → IsSorted (λ s. s.offset) steps
    → (t : Option TemplateStep) × IsNextOf offset steps t
      × (find_next_template_step steps offset base id ≡ Option.map (candidate_of base id) t)
unfolding find_next_template_step
find_next_template_step_least steps offset base id sorted =
    (next_template_step steps offset, next_template_step-IsNextOf steps offset sorted, ground arith)
