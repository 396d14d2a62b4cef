-- ===== src/Ai/Loop/Outcome.antt =====
-- The agent loop ends within its limits.
use aura_launcher.Common.{
  ℕ, zero, suc, ◌+◌, ◌%◌, ◌^◌, ◌≤◌, ◌<◌, ◌≡◌, ◌≢◌, refl, if◌then◌else◌, String, Bool, true, false,
  ◌&&◌, Option, some, List, [], ◌∷◌, length, leb→lt, arith, ◌⊎◌, inl, inr, Bool-cases, nat_eq, ◌==◌,
}
use aura_launcher.Workflow.Runner.Proposals.{ActionProposal}
use aura_launcher.Ai.Budget.{
  AgentLimits, BudgetVerdict, continue, exhausted, BudgetController, new, can_start_turn,
  can_execute, can_replan, record_turn, record_proposals, record_execution, record_failure,
  record_replan,
}
use aura_launcher.Ai.Budget.Bounds.{
  Loop, at, Step, turn, proposals, execution, failure, replan, Steps, begin, next, Within,
  Steps-Within,
}
use aura_launcher.Ai.Loop
use aura_launcher.Ai.Loop.{
  Agent, ExecutionRecord, AgentRunOutcome, Ran, Looping, note, after_execution, attempt,
  run_proposals, noted_failure, conclude, try_proposals, turns_from, outcome, start,
  run_bounded_agent, is_empty, take, planned, propose, continued, checked, AgentRunStatus, created,
  observing, planning, executing, waiting_for_confirmation, replanning, completed, failed,
  cancelled, budget_exhausted, ends_as_failed,
}

verdict-cases : (v : BudgetVerdict) → (v ≡ continue) ⊎ ((limit : String) × (v ≡ exhausted limit))
verdict-cases continue = inl refl
verdict-cases (exhausted limit) = inr (limit, refl)

step_limits : (l l' : Loop) → Step l l' → l'.budget.limits ≡ l.budget.limits
unfolding record_turn record_proposals record_execution record_failure record_replan
step_limits l l' (turn now may) = refl
step_limits l l' (proposals n) = refl
step_limits l l' (execution may) = refl
step_limits l l' failure = refl
step_limits l l' (replan may) = refl

Steps-limits : (s l : Loop) → Steps s l → l.budget.limits ≡ s.budget.limits
Steps-limits s l begin = refl
Steps-limits s l (next {l = k} path step) = rw (step_limits k l step) (Steps-limits s k path)

module _ {N : Type 0} (H : Agent N) (goal : String) (limits : AgentLimits) (began : ℕ) where
  abbrev origin : Loop
  origin = at false (new limits began)

  -- The controller after `t` turns, by steps that the loop may take.
  abbrev At : ℕ → BudgetController → Type 0
  At t budget = (b : Bool) × Steps origin (at b budget) × (budget.turns ≡ t)

  abbrev Reached : ℕ → Ran H goal → Type 0
  Reached t ran =
      (b : Bool) × Steps origin (at b ran.budget)
      × (ran.budget.turns ≡ t)
      × (is_empty ran.failed ≡ false → b ≡ true)

  note-budget :
      (p : ActionProposal N) (records : List ExecutionRecord) (ran : Ran H goal)
      → (note H goal p records ran).budget ≡ ran.budget
  unfolding note
  note-budget p [] ran = refl
  note-budget p (r ∷ records) ran = rw (note-budget p records _) (ground arith)

  executed-Reached :
      (t : ℕ) (p : ActionProposal N) (x : List ExecutionRecord × H.State) (ran : Ran H goal)
      (b : Bool)
      → Steps origin (at b ran.budget)
      → ran.budget.turns ≡ t
      → can_execute ran.budget ≡ continue
      → Reached t (after_execution H goal p x ran)
  executed-Reached t p (records, s) ran b path turns may =
      let same =
        note-budget p records (record ran { budget = record_execution ran.budget; state = s }) in
      (
        true,
        rw same (next path (execution may)),
        rw same (unfold record_execution in turns),
        λ e. refl,
      )

  attempt-Reached :
      (t : ℕ) (asks : Bool) (v : BudgetVerdict) (ran rest : Ran H goal)
      → Reached t ran
      → (v ≡ continue → Reached t rest)
      → Reached t (attempt H goal asks v ran rest)
  attempt-Reached t true v ran rest h k = h
  attempt-Reached t false (exhausted limit) ran rest h k = h
  attempt-Reached t false continue ran rest h k = k refl

  run_proposals-Reached :
      (t : ℕ) (ps : List (ActionProposal N)) (ran : Ran H goal)
      → Reached t ran
      → Reached t (run_proposals H goal ps ran)
  unfolding run_proposals
  run_proposals-Reached t [] ran h = h
  run_proposals-Reached t (p ∷ ps) ran h =
      attempt-Reached t (H.confirmation_required p ran.state) (can_execute ran.budget) ran
        (run_proposals H goal ps (after_execution H goal p (H.execute p ran.state) ran)) h
        (λ may.
          run_proposals-Reached t ps (after_execution H goal p (H.execute p ran.state) ran)
            (executed-Reached t p (H.execute p ran.state) ran h.0 h.1 h.2 may))

  noted_failure-At :
      (t : ℕ) (failed : List String) (budget : BudgetController) (b : Bool)
      → Steps origin (at b budget)
      → budget.turns ≡ t
      → (is_empty failed ≡ false → b ≡ true)
      → At t (noted_failure failed budget)
  noted_failure-At t [] budget b path turns ran = (b, path, turns)
  noted_failure-At t (id ∷ ids) budget true path turns ran =
      (false, next path failure, unfold record_failure in turns)
  noted_failure-At t (id ∷ ids) budget false path turns ran = absurd (let e = ran refl in cc)

  conclude-At :
      (t : ℕ) (ps : List (ActionProposal N)) (ran : Ran H goal) (l : Looping H goal)
      → Reached t ran
      → At t (conclude H goal ps ran l).1.budget
  unfolding conclude
  conclude-At t ps ran l h =
      let noted = noted_failure-At t ran.failed ran.budget h.0 h.1 h.2 h.3 in
      elim (Bool-cases (is_empty ran.failed && (length ran.executed == length ps))) [
        | inl all_done ↦ rw all_done noted
        | inr left ↦
            rw left (elim (verdict-cases (can_replan (noted_failure ran.failed ran.budget))) [
              | inl may ↦ rw may (false, next noted.1 (replan may), unfold record_replan in noted.2)
              | inr (limit, over) ↦ rw over noted
            ])
      ]

  try_proposals-At :
      (t : ℕ) (ps : List (ActionProposal N)) (l : Looping H goal)
      → At t l.budget
      → At t (try_proposals H goal ps l).1.budget
  unfolding try_proposals
  try_proposals-At t [] l h = h
  try_proposals-At t (p ∷ ps) l (b, path, turns) =
      let begun : Ran H goal = record {
        budget = l.budget;
        observation = l.observation;
        executed = [];
        failed = [];
        needs_confirmation = false;
        state = l.state;
      } in
      let tried = run_proposals-Reached t (p ∷ ps) begun (b, path, turns, λ e. absurd (cc)) in
      elim (Bool-cases (run_proposals H goal (p ∷ ps) begun).needs_confirmation) [
        | inl waits ↦ rw waits (tried.0, tried.1, tried.2)
        | inr free ↦ rw free (conclude-At t (p ∷ ps) (run_proposals H goal (p ∷ ps) begun) l tried)
      ]

  propose-At :
      (t now : ℕ) (l : Looping H goal) (x : List (ActionProposal N) × H.State)
      → can_start_turn now l.budget ≡ continue
      → At t l.budget
      → At ((t + 1) % 2 ^ 32) (propose H goal l x).1.budget
  propose-At t now l (all, s) may (b, path, turns) =
      let ps = take (record_turn l.budget).limits.max_proposals_per_turn all in
      let begun = record_proposals (length ps) (record_turn l.budget) in
      let counted : begun.turns ≡ (t + 1) % 2 ^ 32 =
        unfold record_proposals in unfold record_turn in rw turns refl in
      try_proposals-At ((t + 1) % 2 ^ 32) ps (record l { budget = begun; state = s })
        (false, next (next path (turn now may)) (proposals (length ps)), counted)

  turn-At :
      (t now : ℕ) (l : Looping H goal)
      → can_start_turn now l.budget ≡ continue
      → At t l.budget
      → At ((t + 1) % 2 ^ 32) (Loop.turn H goal l).1.budget
  unfolding Loop.turn
  turn-At t now l may h =
      propose-At t now l (planned H goal l.is_replan l.observation l.state) may h

  At-limits : (t : ℕ) (budget : BudgetController) → At t budget → budget.limits ≡ limits
  unfolding new
  At-limits t budget (b, path, turns) = Steps-limits origin (at b budget) path

  At-Within : (t : ℕ) (budget : BudgetController) → At t budget → Within budget
  At-Within t budget (b, path, turns) = Steps-Within limits began (at b budget) path

  -- The loop returned with its controller somewhere on the way.
  abbrev Returned : Option (Looping H goal) → Type 0
  Returned r = (l : Looping H goal) × (r ≡ some l) × (t : ℕ) × At t l.budget

  may_turn :
      (t now : ℕ) (budget : BudgetController)
      → At t budget
      → can_start_turn now budget ≡ continue
      → t < limits.max_turns
  unfolding can_start_turn
  may_turn t now budget h may =
      let kept = At-limits t budget h in
      let below = leb→lt budget.limits.max_turns budget.turns (ground arith) in
      rw (kept, h.2) at below

  continued-Returned :
      (t : ℕ) (x : Bool × Looping H goal) (rest : Option (Looping H goal))
      → At t x.1.budget
      → Returned rest
      → Returned (continued H goal x rest)
  continued-Returned t (true, l) rest h r = (l, refl, t, h)
  continued-Returned t (false, l) rest h r = r

  checked-Returned :
      (t : ℕ) (v : BudgetVerdict) (l : Looping H goal) (rest : Option (Looping H goal))
      → At t l.budget
      → (v ≡ continue → Returned rest)
      → Returned (checked H goal v l rest)
  checked-Returned t (exhausted limit) l rest h r = (l, refl, t, h)
  checked-Returned t continue l rest h r = r refl

  turns_from-Returned :
      (fuel t : ℕ) (l : Looping H goal)
      → limits.max_turns < 2 ^ 32
      → limits.max_turns < t + fuel
      → At t l.budget
      → Returned (turns_from H goal fuel l)
  unfolding turns_from
  turns_from-Returned zero t l small enough h =
      let within = (At-Within t l.budget h).turns in
      let kept = At-limits t l.budget h in
      let bound = rw (kept, h.2) at within in absurd (omega arith)
  turns_from-Returned (suc fuel) t l small enough h =
      let read = H.now l.state in
      let l' : Looping H goal = record l { state = read.1 } in
      checked-Returned t (can_start_turn read.0 l.budget) l'
        (continued H goal (Loop.turn H goal l') (turns_from H goal fuel (Loop.turn H goal l').1)) h
        (λ may.
          let below = may_turn t read.0 l.budget h may in
          let one_more : (t + 1) % 2 ^ 32 ≡ t + 1 = omega arith in
          let after = rw one_more at (turn-At t read.0 l' may h) in
          continued-Returned (t + 1) (Loop.turn H goal l')
            (turns_from H goal fuel (Loop.turn H goal l').1) after
            (turns_from-Returned fuel (t + 1) (Loop.turn H goal l').1 small (omega arith) after))

final_status :
    (s : AgentRunStatus)
    → ((if ends_as_failed s then failed else s) ≢ created)
      × ((if ends_as_failed s then failed else s) ≢ replanning)
final_status created = (λ e. cc, λ e. cc)
final_status observing = (λ e. cc, λ e. cc)
final_status planning = (λ e. cc, λ e. cc)
final_status executing = (λ e. cc, λ e. cc)
final_status waiting_for_confirmation = (λ e. cc, λ e. cc)
final_status replanning = (λ e. cc, λ e. cc)
final_status completed = (λ e. cc, λ e. cc)
final_status failed = (λ e. cc, λ e. cc)
final_status cancelled = (λ e. cc, λ e. cc)
final_status budget_exhausted = (λ e. cc, λ e. cc)

-- Under every host, planner and clock, and with a limit on turns that fits 32 bits, the agent
-- loop returns, after `max_turns + 1` checks of the budget at most, and its outcome is
-- within the limits on turns, executions, failures and replans. Its status is neither `Created`
-- nor `Replanning`.
pub run_bounded_agent_lem :
    {N : Type 0} (H : Agent N) (goal : String) (limits : AgentLimits) (s : H.State)
    → limits.max_turns < 2 ^ 32
    → (o : AgentRunOutcome) × (run_bounded_agent H goal limits s ≡ some o)
      × (o.turns ≤ limits.max_turns)
      × (o.executions ≤ limits.max_total_executions)
      × (o.failures ≤ limits.max_failures)
      × (o.replans ≤ limits.max_replans)
      × (o.status ≢ created)
      × (o.status ≢ replanning)
unfolding run_bounded_agent new
run_bounded_agent_lem H goal limits s small =
    let read = H.now s in
    let (l, returned, t, h) =
      turns_from-Returned H goal limits read.0 (limits.max_turns + 1) 0 (start H goal limits read)
        small (omega arith) (false, begin, refl) in
    let within = At-Within H goal limits read.0 t l.budget h in
    let kept = At-limits H goal limits read.0 t l.budget h in
    let status = final_status l.status in
    (
      outcome H goal l,
      rw returned refl,
      rw kept at within.turns,
      rw kept at within.executions,
      rw kept at within.failures,
      rw kept at within.replans,
      status.0,
      status.1,
    )
