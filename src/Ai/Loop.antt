-- ===== src/Ai/Loop.antt =====
-- The agent loop `run_bounded_agent` (crates/launcher-ai/src/agent.rs). The host, the planner and
-- the clock are the record `Agent`, with the state behind them.
pub mod Outcome
use aura_launcher.Common.{
  ℕ, zero, suc, ◌+◌, ◌%◌, ◌^◌, String, Bool, true, false, ◌&&◌, ◌||◌, not, Option, none, some, List,
  [], ◌∷◌, ◌++◌, length, if◌then◌else◌, nat_eq, ◌==◌,
}
use aura_launcher.Workflow.Runner.Proposals.{ActionProposal}
use aura_launcher.Ai.Budget.{
  AgentLimits, continue, exhausted, BudgetController, BudgetVerdict, new, can_start_turn,
  can_execute, can_replan, record_turn, record_proposals, record_execution, record_failure,
  record_replan,
}

pub data AgentRunStatus : Type 0 where
  created observing planning executing waiting_for_confirmation : AgentRunStatus
  replanning completed failed cancelled budget_exhausted : AgentRunStatus

-- The `result`, a JSON value that the loop does not read, is left out.
pub record ExecutionRecord : Type 0 where
  pub execution_id : Option String
  pub action_id : String
  pub ok : Bool
  pub error : Option String

pub record AgentTurnRecord : Type 0 where
  pub turn : ℕ
  pub objective : String
  pub proposal_count : ℕ
  pub executed : List String
  pub failed : List String

pub record AgentRunOutcome : Type 0 where
  pub status : AgentRunStatus
  pub turns : ℕ
  pub executions : ℕ
  pub failures : ℕ
  pub replans : ℕ
  pub turn_records : List AgentTurnRecord

pub record Agent (N : Type 0) : Type 1 where
  pub State : Type 0
  pub Catalog : Type 0
  pub now : State → ℕ × State
  pub catalog : State → Catalog × State
  pub plan : String → Catalog → State → List (ActionProposal N) × State
  pub replan : String → Catalog → List (String × String) → State → List (ActionProposal N) × State
  pub confirmation_required : ActionProposal N → State → Bool
  pub execute : ActionProposal N → State → List ExecutionRecord × State

-- `take` of an iterator.
unfoldable pub take {ℓ} : {A : Type ℓ} → ℕ → List A → List A
take n [] = []
take n (x ∷ xs) = elim n [ zero ↦ [] | suc k ↦ x ∷ take k xs ]

abbrev pub is_empty {ℓ} : {A : Type ℓ} → List A → Bool
is_empty [] = true
is_empty (x ∷ xs) = false

abbrev id_or_default : Option String → String
id_or_default none = ""
id_or_default (some id) = id

abbrev pub ends_as_failed : AgentRunStatus → Bool
ends_as_failed created = true
ends_as_failed replanning = true
ends_as_failed _ = false

abbrev pub noted_failure : List String → BudgetController → BudgetController
noted_failure [] b = b
noted_failure (id ∷ ids) b = record_failure b

module _ {N : Type 0} (H : Agent N) (goal : String) where
  -- The variables that a turn's inner loop changes.
  pub record Ran : Type 0 where
    pub budget : BudgetController
    pub observation : List (String × String)
    pub executed : List String
    pub failed : List String
    pub needs_confirmation : Bool
    pub state : H.State

  -- The variables of the outer loop.
  pub record Looping : Type 0 where
    pub budget : BudgetController
    pub turn_records : List AgentTurnRecord
    pub status : AgentRunStatus
    pub observation : List (String × String)
    pub is_replan : Bool
    pub state : H.State

  unfoldable pub note : ActionProposal N → List ExecutionRecord → Ran → Ran
  note p [] ran = ran
  note p (r ∷ records) ran =
      let eid = id_or_default r.execution_id in
      note p records (
        if r.ok then record ran { executed = ran.executed ++ (eid ∷ []) } else record ran {
          failed = ran.failed ++ (eid ∷ []);
          observation = ran.observation ++ ((p.command_id, p.action_id) ∷ []);
        })

  abbrev pub after_execution : ActionProposal N → List ExecutionRecord × H.State → Ran → Ran
  after_execution p (records, s) ran =
      note p records (record ran { budget = record_execution ran.budget; state = s })

  -- A proposal that waits for a confirmation, or for which the budget is spent, ends the loop
  -- over the proposals; else `rest` is what the execution and the other proposals give.
  abbrev pub attempt : Bool → BudgetVerdict → Ran → Ran → Ran
  attempt true verdict ran rest = record ran { needs_confirmation = true }
  attempt false (exhausted limit) ran rest = ran
  attempt false continue ran rest = rest

  unfoldable pub run_proposals : List (ActionProposal N) → Ran → Ran
  unfolding note
  run_proposals [] ran = ran
  run_proposals (p ∷ proposals) ran =
      attempt (H.confirmation_required p ran.state) (can_execute ran.budget) ran
        (run_proposals proposals (after_execution p (H.execute p ran.state) ran))

  abbrev pub planned : Bool → List (String × String) → H.State → List (ActionProposal N) × H.State
  planned is_replan observation s =
      let (catalog, s') = H.catalog s in
      if is_replan then H.replan goal catalog observation s' else H.plan goal catalog s'

  -- The end of a turn whose proposals were tried: whether the loop is left, and its variables.
  unfoldable pub conclude : List (ActionProposal N) → Ran → Looping → Bool × Looping
  conclude proposals ran l =
      let budget = noted_failure ran.failed ran.budget in
      let turn_record : AgentTurnRecord = record {
        turn = budget.turns;
        objective = goal;
        proposal_count = length proposals;
        executed = ran.executed;
        failed = ran.failed;
      } in
      let after : Looping = record l {
        budget = budget;
        turn_records = l.turn_records ++ (turn_record ∷ []);
        observation = ran.observation;
        state = ran.state;
      } in
      if is_empty ran.failed && (length ran.executed == length proposals)
      then (true, record after { status = completed })
      else elim (can_replan budget) [
        | exhausted limit ↦ (true, record after { status = budget_exhausted })
        | continue ↦ (
          false,
          record after { budget = record_replan budget; status = replanning; is_replan = true },
        )
      ]

  unfoldable pub try_proposals : List (ActionProposal N) → Looping → Bool × Looping
  unfolding run_proposals conclude
  try_proposals [] l = (true, record l { status = completed })
  try_proposals (p ∷ proposals) l =
      let ran = run_proposals (p ∷ proposals) (record {
        budget = l.budget;
        observation = l.observation;
        executed = [];
        failed = [];
        needs_confirmation = false;
        state = l.state;
      }) in
      if ran.needs_confirmation
      then (
        true,
        record l {
          budget = ran.budget;
          observation = ran.observation;
          status = waiting_for_confirmation;
          state = ran.state;
        },
      )
      else conclude (p ∷ proposals) ran l

  abbrev pub propose : Looping → List (ActionProposal N) × H.State → Bool × Looping
  propose l (all, s) =
      let begun = record_turn l.budget in
      let proposals = take begun.limits.max_proposals_per_turn all in
      try_proposals proposals
        (record l { budget = record_proposals (length proposals) begun; state = s })

  -- The body of the loop.
  unfoldable pub turn : Looping → Bool × Looping
  unfolding try_proposals take
  turn l = propose l (planned l.is_replan l.observation l.state)

  abbrev pub continued : Bool × Looping → Option Looping → Option Looping
  continued (true, l) rest = some l
  continued (false, l) rest = rest

  -- The loop after the clock was read.
  abbrev pub checked : BudgetVerdict → Looping → Option Looping → Option Looping
  checked (exhausted limit) l rest = some l
  checked continue l rest = rest

  -- The loop on fuel; nothing, if it runs out.
  unfoldable pub turns_from : ℕ → Looping → Option Looping
  unfolding turn
  turns_from zero l = none
  turns_from (suc fuel) l =
      let read = H.now l.state in
      let l' = record l { state = read.1 } in
      checked (can_start_turn read.0 l.budget) l'
        (continued (turn l') (turns_from fuel (turn l').1))

  abbrev pub outcome : Looping → AgentRunOutcome
  outcome l = record {
    status = if ends_as_failed l.status then failed else l.status;
    turns = l.budget.turns;
    executions = l.budget.executions;
    failures = l.budget.failures;
    replans = l.budget.replans;
    turn_records = l.turn_records;
  }

  abbrev pub outcome_of : Option Looping → Option AgentRunOutcome
  outcome_of none = none
  outcome_of (some l) = some (outcome l)

  abbrev pub start : AgentLimits → ℕ × H.State → Looping
  start limits (now, s) = record {
    budget = new limits now;
    turn_records = [];
    status = created;
    observation = [];
    is_replan = false;
    state = s;
  }

  unfoldable pub run_bounded_agent : AgentLimits → H.State → Option AgentRunOutcome
  unfolding turns_from
  run_bounded_agent limits s =
      outcome_of (turns_from (limits.max_turns + 1) (start limits (H.now s)))
