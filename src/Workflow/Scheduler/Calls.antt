-- ===== src/Workflow/Scheduler/Calls.antt =====
-- What the scheduler knows when it calls the executor on a node.
use aura_launcher.Common.{
  ℕ, ◌≡◌, refl, String, Bool, true, false, Option, none, some, List, [], ◌∷◌, ◌++◌, map, find?, all,
  arith, string_eq, ◌==◌, if◌then◌else◌, Result, ok, err, All, All-append, subst, sym,
}
use aura_launcher.Common.Ids.{contains}
use aura_launcher.Workflow.Graph.{WorkflowNode, WorkflowEdge, WorkflowGraph}
use aura_launcher.Workflow.Engine.{Json, is_ready, is_over, incoming}
use aura_launcher.Workflow.Engine.Readiness.{contains-ready_nodes}
use aura_launcher.Workflow.Scheduler.{
  Host, Call, Run, Step, stop, go, panicked, Gate, Output, condition_holds, ApprovalStatus, pending,
  approved, rejected, checkpoint, is_runnable, gate_decision, gate_node, gate_all, apply_out,
  apply_batch, and_then, call,
}

module _ (J : Json) (host : Host J) (graph : WorkflowGraph) where
  abbrev decision : ℕ → WorkflowNode → Option ApprovalStatus
  decision round n = if host.has_approvals then host.decision_for round n.node_id else none

  -- The node had not finished, all its predecessors were over, its condition held, and it was
  -- approved if it asks for an approval.
  pub record CallOk (c : Call J) : Type 0 where
    pub unfinished : contains c.node.node_id c.finished_ids ≡ false
    pub waited :
        all (λ e. is_over c.finished_ids c.skipped_ids e.from) (incoming graph c.node.node_id)
        ≡ true
    pub condition : condition_holds J c.node.condition c.variables ≡ true
    pub approval : c.node.approval ≡ true → decision c.round c.node ≡ some approved

  abbrev pub NodeOk : Run J → WorkflowNode → Type 0
  NodeOk run n =
      (contains n.node_id run.finished_ids ≡ false)
      × (all (λ e. is_over run.finished_ids run.skipped_ids e.from) (incoming graph n.node_id)
          ≡ true)
      × (condition_holds J n.condition run.vars ≡ true)

  abbrev Approved : ℕ → WorkflowNode → Type 0
  Approved round n = n.approval ≡ true → decision round n ≡ some approved

  unfinished :
      (finished skipped : List String) (id : String)
      → is_ready graph finished skipped id ≡ true
      → contains id finished ≡ false
  unfolding is_ready
  unfinished finished skipped id h = ground arith

  ready_waits :
      (finished skipped : List String) (es : List WorkflowEdge) (id : String)
      → is_ready graph finished skipped id ≡ true
      → incoming graph id ≡ es
      → all (λ e. is_over finished skipped e.from) es ≡ true
  unfolding is_ready
  ready_waits finished skipped [] id h same = refl
  ready_waits finished skipped (e ∷ es) id h same = ground arith

  pub runnable_ok :
      (run : Run J) (n : WorkflowNode) → is_runnable J host graph run n ≡ true → NodeOk run n
  unfolding is_runnable
  runnable_ok run n h = (
    unfinished run.finished_ids run.skipped_ids n.node_id
        (ground (arith, contains-ready_nodes graph run.finished_ids run.skipped_ids n.node_id)),
    ready_waits run.finished_ids run.skipped_ids (incoming graph n.node_id) n.node_id
        (ground (arith, contains-ready_nodes graph run.finished_ids run.skipped_ids n.node_id))
        refl,
    ground arith,
  )

  all_waits :
      (finished skipped skipped' : List String) (es : List WorkflowEdge)
      → ((u : String) → contains u skipped ≡ true → contains u skipped' ≡ true)
      → all (λ e. is_over finished skipped e.from) es ≡ true
      → all (λ e. is_over finished skipped' e.from) es ≡ true
  all_waits finished skipped skipped' [] grows h = refl
  all_waits finished skipped skipped' (e ∷ es) grows h =
      ground (arith, all_waits finished skipped skipped' es grows, grows e.from)

  abbrev pub ToRun : Run J → ℕ → List WorkflowNode → Type 0
  ToRun run round nodes = All (λ n. NodeOk run n × Approved round n) nodes

  ToRun-snoc :
      (run : Run J) (round : ℕ) (nodes : List WorkflowNode) (n : WorkflowNode)
      → ToRun run round nodes
      → NodeOk run n
      → Approved round n
      → ToRun run round (nodes ++ n ∷ [])
  ToRun-snoc run round nodes n t good a =
      All-append (λ n. NodeOk run n × Approved round n) nodes (n ∷ []) t ((good, a), tt)

  gate_decision_calls :
      (run : Run J) (round : ℕ) (n : WorkflowNode) (d : Option ApprovalStatus) (g : Gate J)
      → decision round n ≡ d
      → NodeOk run n
      → ToRun run round g.to_execute
      → ToRun run round (gate_decision J host graph n d g).to_execute
  unfolding gate_decision
  gate_decision_calls run round n (some approved) g same good t =
      ToRun-snoc run round g.to_execute n t good (λ h. same)
  gate_decision_calls run round n (some rejected) g same good t = t
  gate_decision_calls run round n (some pending) g same good t = t
  gate_decision_calls run round n none g same good t = t

  gate_either_calls :
      (run : Run J) (round : ℕ) (n : WorkflowNode) (g decided : Gate J) (b : Bool)
      → n.approval ≡ b
      → NodeOk run n
      → ToRun run round g.to_execute
      → ToRun run round decided.to_execute
      → ToRun run round
          (if b then decided else record g { to_execute = g.to_execute ++ n ∷ [] }).to_execute
  gate_either_calls run round n g decided true same good t d = d
  gate_either_calls run round n g decided false same good t d =
      ToRun-snoc run round g.to_execute n t good (λ h. cc)

  pub gate_all_calls :
      (run : Run J) (round : ℕ) (nodes : List WorkflowNode) (g : Gate J)
      → All (λ n. NodeOk run n) nodes
      → ToRun run round g.to_execute
      → ToRun run round (gate_all J host graph round nodes g).to_execute
  unfolding gate_all gate_node
  gate_all_calls run round [] g good t = t
  gate_all_calls run round (n ∷ nodes) g good t =
      gate_all_calls run round nodes (gate_node J host graph round n g) good.1 (
        gate_either_calls run round n g (gate_decision J host graph n (decision round n) g)
          n.approval refl good.0 t
          (gate_decision_calls run round n (decision round n) g refl good.0 t))

  abbrev pub Called : Run J → Type 0
  Called run = All (λ c. CallOk c) run.calls

  abbrev pub StepCalled : Step J → Type 0
  StepCalled (stop s run) = Called run
  StepCalled (go run) = Called run
  StepCalled panicked = Unit

  apply_out-Called :
      (id : String) (r : Result String J.Value) (n : Option WorkflowNode) (run : Run J)
      → Called run
      → StepCalled (apply_out J host graph id r n run)
  unfolding apply_out checkpoint
  apply_out-Called id r none run c = tt
  apply_out-Called id (ok v) (some n) run c = c
  apply_out-Called id (err e) (some n) run c = c

  pub and_then-Called :
      (step : Step J) (f : Run J → Step J)
      → StepCalled step
      → ((run : Run J) → Called run → StepCalled (f run))
      → StepCalled (and_then J host graph step f)
  and_then-Called (go run) f s g = g run s
  and_then-Called (stop x run) f s g = s
  and_then-Called panicked f s g = s

  pub apply_batch-Called :
      (outs : List (Output J host graph)) (run : Run J)
      → Called run
      → StepCalled (apply_batch J host graph outs run)
  unfolding apply_batch
  apply_batch-Called [] run c = c
  apply_batch-Called (o ∷ outs) run c =
      and_then-Called
        (apply_out J host graph o.0 o.1 (find? (λ n. n.node_id == o.0) graph.nodes) run)
        (λ run'. apply_batch J host graph outs run')
        (apply_out-Called o.0 o.1 (find? (λ n. n.node_id == o.0) graph.nodes) run c)
        (λ run' c'. apply_batch-Called outs run' c')

  pub new_calls :
      (before run : Run J) (nodes : List WorkflowNode)
      → run.finished_ids ≡ before.finished_ids
      → run.vars ≡ before.vars
      → ((u : String) → contains u before.skipped_ids ≡ true → contains u run.skipped_ids ≡ true)
      → ToRun before run.round nodes
      → All (λ c. CallOk c) (map (call J host graph run) nodes)
  new_calls before run [] same vars grows t = tt
  new_calls before run (n ∷ nodes) same vars grows t = (
    record {
      unfinished = ground (arith, t.0.0.0);
      waited =
          subst (λ f. all (λ e. is_over f run.skipped_ids e.from) (incoming graph n.node_id) ≡ true)
            (sym same)
            (all_waits before.finished_ids before.skipped_ids run.skipped_ids
              (incoming graph n.node_id) grows t.0.0.1);
      condition = subst (λ v. condition_holds J n.condition v ≡ true) (sym vars) t.0.0.2;
      approval = t.0.1;
    },
    new_calls before run nodes same vars grows t.1,
  )
