-- ===== src/Workflow/Scheduler.antt =====
-- The scheduler (crates/launcher-workflow/src/scheduler.rs; `RunStatus` of durable.rs and
-- `ApprovalStatus` of approval.rs). `Host` is what the host answers: the cancel flag at each
-- poll, the decision on a node and the executor's result in each round, so that any order of the
-- batch's threads is one such answer. The checkpoints, approval requests and executor calls are
-- logged, the last one first; a checkpoint's time is left out.
pub mod Sets
pub mod Gating
pub mod Batch
pub mod Progress
pub mod Finish
pub mod Calls
pub mod Authority
pub mod Tests
use aura_launcher.Common.{
  ℕ, zero, suc, ◌+◌, ◌*◌, ◌≡◌, String, Bool, true, false, ◌&&◌, ◌||◌, not, Option, none, some, List,
  [], ◌∷◌, ◌++◌, map, filter, find?, length, nat_eqb, string_eq, ◌==◌, if◌then◌else◌, str_lt,
  Result, ok, err,
}
use aura_launcher.Common.Ids
use aura_launcher.Common.Ids.{contains}
use aura_launcher.Workflow.Graph.{
  ConditionExpr, WorkflowNode, WorkflowEdge, WorkflowGraph, node_ids,
}
use aura_launcher.Workflow.Engine.{
  Json, VariableStore, set, restore, evaluate, ready_nodes, is_over,
}

pub data RunStatus : Type 0 where
  running paused awaiting_approval finished failed : RunStatus

pub data ApprovalStatus : Type 0 where
  pending approved rejected : ApprovalStatus

pub data SchedulerStop : Type 0 where
  at_end : SchedulerStop
  at_pause : SchedulerStop
  at_approval : String → SchedulerStop
  at_failure : String → String → SchedulerStop

module _ (J : Json) where
  pub record RunCheckpoint : Type 0 where
    pub graph_id : String
    pub graph_version : ℕ
    pub status : RunStatus
    pub finished_ids : List String
    pub skipped_ids : List String
    pub variables : VariableStore J

  pub record Host : Type 0 where
    pub cancelled : ℕ → Bool
    pub has_approvals : Bool
    pub decision_for : ℕ → String → Option ApprovalStatus
    pub execute : ℕ → WorkflowNode → VariableStore J → Result String J.Value

  -- A call of the executor, with what the scheduler knew at that time.
  pub record Call : Type 0 where
    pub node : WorkflowNode
    pub round : ℕ
    pub finished_ids : List String
    pub skipped_ids : List String
    pub variables : VariableStore J

  pub record Run : Type 0 where
    pub finished_ids : List String
    pub skipped_ids : List String
    pub vars : VariableStore J
    pub round : ℕ
    pub polls : ℕ
    pub checkpoints : List RunCheckpoint
    pub requests : List String
    pub calls : List Call

  -- One pass of the `loop`: a `return`, a next pass, or a failed `expect`.
  pub data Step : Type 0 where
    stop : SchedulerStop → Run → Step
    go : Run → Step
    panicked : Step

  unfoldable pub apply_outputs : List String → J.Value → VariableStore J → VariableStore J
  unfolding set
  apply_outputs [] output vars = vars
  apply_outputs (name ∷ names) output vars = apply_outputs names output (set J name output vars)

  abbrev pub condition_holds : Option ConditionExpr → VariableStore J → Bool
  condition_holds none vars = true
  condition_holds (some c) vars = evaluate J c vars

  unfoldable pub mark_condition_skips :
      List WorkflowNode → VariableStore J → List String → List String × Bool
  mark_condition_skips [] vars skipped = (skipped, false)
  mark_condition_skips (n ∷ nodes) vars skipped =
      let kept = mark_condition_skips nodes vars skipped in
      let marked = mark_condition_skips nodes vars (Ids.insert n.node_id skipped) in
      if contains n.node_id skipped || condition_holds n.condition vars
      then kept
      else (marked.0, true)

  -- What the approval gate makes of the runnable nodes.
  pub record Gate : Type 0 where
    pub skipped_ids : List String
    pub to_execute : List WorkflowNode
    pub gated_pending : Option String
    pub requests : List String

  module _ (host : Host) (graph : WorkflowGraph) where
    -- A run without a checkpoint.
    abbrev pub fresh : Run
    fresh = record {
      finished_ids = [];
      skipped_ids = [];
      vars = [];
      round = 0;
      polls = 0;
      checkpoints = [];
      requests = [];
      calls = [];
    }

    -- A run at a checkpoint of the same graph and version; the sets lose repeated ids.
    unfoldable pub collect : List String → List String
    collect [] = []
    collect (id ∷ ids) = let rest = collect ids in Ids.insert id rest

    abbrev pub resume_from : RunCheckpoint → Bool → Run
    resume_from cp false = fresh
    resume_from cp true = record fresh {
      finished_ids = collect cp.finished_ids;
      skipped_ids = collect cp.skipped_ids;
      vars = restore J cp.variables [];
    }

    abbrev pub same_version : RunCheckpoint → Bool
    same_version cp = (cp.graph_id == graph.id) && nat_eqb cp.graph_version graph.version

    abbrev pub resume : Option RunCheckpoint → Run
    resume none = fresh
    resume (some cp) = resume_from cp (same_version cp)

    unfoldable pub checkpoint : RunStatus → Run → Run
    checkpoint status run = record run {
      checkpoints =
          record {
            graph_id = graph.id;
            graph_version = graph.version;
            status = status;
            finished_ids = run.finished_ids;
            skipped_ids = run.skipped_ids;
            variables = run.vars;
          }
          ∷ run.checkpoints;
    }

    unfoldable pub is_runnable : Run → WorkflowNode → Bool
    is_runnable run n =
        contains n.node_id (ready_nodes graph run.finished_ids run.skipped_ids)
        && not (contains n.node_id run.skipped_ids)
        && condition_holds n.condition run.vars

    unfoldable pub remaining : Run → List String
    remaining run =
        filter (λ id. not (is_over run.finished_ids run.skipped_ids id)) (node_ids graph)

    unfoldable pub mark : Run → Run
    unfolding mark_condition_skips
    mark run = record run {
      skipped_ids = (mark_condition_skips graph.nodes run.vars run.skipped_ids).0;
    }

    unfoldable pub gate_decision : WorkflowNode → Option ApprovalStatus → Gate → Gate
    gate_decision n (some approved) g = record g { to_execute = g.to_execute ++ n ∷ [] }
    gate_decision n (some rejected) g = record g {
      skipped_ids = Ids.insert n.node_id g.skipped_ids;
    }
    gate_decision n _ g = record g {
      gated_pending = some n.node_id;
      requests = if host.has_approvals then n.node_id ∷ g.requests else g.requests;
    }

    unfoldable pub gate_node : ℕ → WorkflowNode → Gate → Gate
    unfolding gate_decision
    gate_node round n g =
        if n.approval
        then gate_decision n
            (if host.has_approvals then host.decision_for round n.node_id else none) g
        else record g { to_execute = g.to_execute ++ n ∷ [] }

    unfoldable pub gate_all : ℕ → List WorkflowNode → Gate → Gate
    unfolding gate_node
    gate_all round [] g = g
    gate_all round (n ∷ nodes) g = gate_all round nodes (gate_node round n g)

    abbrev pub Output : Type 0
    Output = String × Result String J.Value

    unfoldable pub insert_output : Output → List Output → List Output
    insert_output o [] = o ∷ []
    insert_output o (x ∷ xs) =
        let rest = insert_output o xs in if str_lt x.0 o.0 then x ∷ rest else o ∷ x ∷ xs

    -- The outputs of a batch, in the order of the ids.
    unfoldable pub batch_out : Run → List WorkflowNode → List Output
    unfolding insert_output
    batch_out run [] = []
    batch_out run (n ∷ nodes) =
        insert_output (n.node_id, host.execute run.round n run.vars) (batch_out run nodes)

    unfoldable pub apply_out : String → Result String J.Value → Option WorkflowNode → Run → Step
    unfolding apply_outputs checkpoint
    apply_out id out none run = panicked
    apply_out id (ok output) (some node) run = go (
        checkpoint running (record run {
          vars = apply_outputs node.output_variables output run.vars;
          finished_ids = Ids.insert id run.finished_ids;
        }))
    apply_out id (err e) (some node) run = stop (at_failure id e) (checkpoint failed run)

    abbrev pub and_then : Step → (Run → Step) → Step
    and_then (go run) f = f run
    and_then (stop s run) f = stop s run
    and_then panicked f = panicked

    unfoldable pub apply_batch : List Output → Run → Step
    unfolding apply_out
    apply_batch [] run = go run
    apply_batch (o ∷ outs) run =
        and_then (apply_out o.0 o.1 (find? (λ n. n.node_id == o.0) graph.nodes) run)
          (λ run'. apply_batch outs run')

    abbrev pub call : Run → WorkflowNode → Call
    call run n = record {
      node = n;
      round = run.round;
      finished_ids = run.finished_ids;
      skipped_ids = run.skipped_ids;
      variables = run.vars;
    }

    unfoldable pub batch_round : Run → List WorkflowNode → Step
    unfolding mark apply_batch batch_out
    batch_round run nodes =
        and_then
          (apply_batch (batch_out run nodes)
            (record run { calls = map (call run) nodes ++ run.calls }))
          (λ run'. go (mark run'))

    unfoldable pub poll : Run → Run
    poll run = record run { polls = suc run.polls }

    unfoldable pub gate_round : Run → List WorkflowNode → Option String → Step
    unfolding poll checkpoint batch_round
    gate_round run nodes (some id) = stop (at_approval id) (checkpoint awaiting_approval run)
    gate_round run nodes none =
        if host.cancelled run.polls
        then stop at_pause (checkpoint paused (poll run))
        else batch_round (poll run) nodes

    unfoldable pub idle_round : Run → List String → Bool → Step
    unfolding checkpoint
    idle_round run [] progressed = stop at_end (checkpoint finished run)
    idle_round run (id ∷ ids) true = go run
    idle_round run (id ∷ ids) false =
        stop (at_failure id "no runnable node and no progress (scheduler stall)")
          (checkpoint failed run)

    unfoldable pub runnable_round : Run → List WorkflowNode → Step
    unfolding mark idle_round gate_round remaining gate_all
    runnable_round run [] =
        idle_round (mark run) (remaining run)
          (mark_condition_skips graph.nodes run.vars run.skipped_ids).1
    runnable_round run (n ∷ nodes) =
        let g = gate_all run.round (n ∷ nodes) (record {
          skipped_ids = run.skipped_ids;
          to_execute = [];
          gated_pending = none;
          requests = run.requests;
        }) in
        gate_round (record run { skipped_ids = g.skipped_ids; requests = g.requests }) g.to_execute
          g.gated_pending

    unfoldable pub round_step : Run → Step
    unfolding runnable_round poll is_runnable checkpoint
    round_step run =
        let run' = record (poll run) { round = suc run.round } in
        if host.cancelled run.polls
        then stop at_pause (checkpoint paused (poll run))
        else runnable_round run' (filter (is_runnable run') graph.nodes)

    abbrev pub loop_from :
        Step → (Run → Option (SchedulerStop × Run)) → Option (SchedulerStop × Run)
    loop_from (stop s run) next = some (s, run)
    loop_from (go run) next = next run
    loop_from panicked next = none

    -- The `loop` of `run_graph`; `none` for a panic or a run that is out of fuel.
    unfoldable pub run_loop : ℕ → Run → Option (SchedulerStop × Run)
    unfolding round_step
    run_loop zero run = none
    run_loop (suc fuel) run = loop_from (round_step run) (λ run'. run_loop fuel run')

    abbrev pub rounds : ℕ
    rounds = suc (length graph.nodes + length graph.nodes)

    unfoldable pub run_graph : Option RunCheckpoint → Option (SchedulerStop × Run)
    unfolding run_loop collect
    run_graph saved = run_loop rounds (resume saved)
