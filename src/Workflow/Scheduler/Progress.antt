-- ===== src/Workflow/Scheduler/Progress.antt =====
-- `run_graph` comes to an end: each pass that goes on finishes or skips one more node.
use aura_launcher.Common.{
  suc, ◌≡◌, refl, String, Bool, true, false, ◌||◌, not, Option, none, some, List, [], ◌∷◌, ◌++◌,
  map, filter, filter-All, arith, string_eq, ◌==◌, eq_self, eq→path, Bool-cases, inl, inr, ◌⊎◌, All,
  subst,
}
use aura_launcher.Common.Ids.{contains}
use aura_launcher.Workflow.Graph.{WorkflowNode, WorkflowGraph}
use aura_launcher.Workflow.Engine.{Json, is_ready, is_over}
use aura_launcher.Workflow.Engine.Readiness.{contains-ready_nodes}
use aura_launcher.Workflow.Scheduler.{
  Host, Run, Step, stop, go, panicked, Gate, Output, at_end, mark_condition_skips, checkpoint,
  is_runnable, remaining, mark, gate_all, batch_out, apply_batch, and_then, batch_round, gate_round,
  idle_round, runnable_round, round_step, poll, call,
}
use aura_launcher.Workflow.Scheduler.Sets.{Grows, mark-Grows, mark_progress}
use aura_launcher.Workflow.Scheduler.Gating.{ids, is_some, gate_all_ok}
use aura_launcher.Workflow.Scheduler.Batch.{
  Inside, BatchOk, apply_batch_ok, batch_out-Inside, contains-batch_out,
}

module _ (J : Json) (host : Host J) (graph : WorkflowGraph) where
  -- What a pass does to the sets.
  abbrev pub StepOk : Run J → Step J → Type 0
  StepOk run (go run') =
      Grows run.finished_ids run'.finished_ids
      × Grows run.skipped_ids run'.skipped_ids
      × (u : String) × Inside J host graph u
      × (((contains u run.finished_ids ≡ false) × (contains u run'.finished_ids ≡ true))
          ⊎ ((contains u run.skipped_ids ≡ false) × (contains u run'.skipped_ids ≡ true)))
  StepOk run (stop s run') =
      s ≡ at_end
      → (u : String) → Inside J host graph u
      → is_over run'.finished_ids run'.skipped_ids u ≡ true
  StepOk run panicked = ⊥

  cons-ne : {A : Type 0} {x : A} {xs : List A} → (x ∷ xs) ≡ [] → ⊥
  cons-ne h = cc

  grown :
      (run run' : Run J) (u : String)
      → is_over run.finished_ids run.skipped_ids u ≡ false
      → is_over run'.finished_ids run'.skipped_ids u ≡ true
      → ((contains u run.finished_ids ≡ false) × (contains u run'.finished_ids ≡ true))
        ⊎ ((contains u run.skipped_ids ≡ false) × (contains u run'.skipped_ids ≡ true))
  grown run run' u before after = ground arith

  -- A batch that holds an id that was not over before.
  batch_step :
      (before run : Run J) (outs : List (Output J host graph)) (step : Step J) (u : String)
      → run.finished_ids ≡ before.finished_ids
      → Grows before.skipped_ids run.skipped_ids
      → Inside J host graph u
      → is_over before.finished_ids before.skipped_ids u ≡ false
      → (contains u run.skipped_ids || contains u (map (λ o. o.0) outs)) ≡ true
      → BatchOk J host graph outs run step
      → StepOk before (and_then J host graph step (λ run'. go (mark J host graph run')))
  unfolding mark
  batch_step before run outs panicked u same grows inside open_before now b = b
  batch_step before run outs (stop s run') u same grows inside open_before now b = λ h. absurd (b h)
  batch_step before run outs (go run') u same grows inside open_before now b =
      let marks = mark-Grows J graph.nodes run'.vars run'.skipped_ids in
      (
        (λ v h. ground (arith, b.1 v)),
        (λ v h. ground (arith, grows v h, marks v)),
        u,
        inside,
        ground (arith, b.2 u, marks u),
      )

  gate_step :
      (before run : Run J) (nodes : List WorkflowNode) (waits : Option String) (u : String)
      → run.finished_ids ≡ before.finished_ids
      → Grows before.skipped_ids run.skipped_ids
      → Inside J host graph u
      → is_over before.finished_ids before.skipped_ids u ≡ false
      → ((v : String) → contains v (ids J host graph nodes) ≡ true → Inside J host graph v)
      → (is_some waits || contains u run.skipped_ids || contains u (ids J host graph nodes)) ≡ true
      → StepOk before (gate_round J host graph run nodes waits)
  unfolding gate_round batch_round poll checkpoint
  gate_step before run nodes (some id) u same grows inside fresh all_in now = λ h. cc
  gate_step before run nodes none u same grows inside fresh all_in now =
      elim (Bool-cases (host.cancelled run.polls)) [
        | inl cancelled ↦ rw cancelled (λ h. cc)
        | inr goes ↦
            let outs = batch_out J host graph (poll J host graph run) nodes in
            let run' : Run J = record (poll J host graph run) {
              calls = map (call J host graph (poll J host graph run)) nodes ++ run.calls;
            } in
            rw goes (
              batch_step before run' outs (apply_batch J host graph outs run') u same grows inside
                fresh
                (ground (arith, contains-batch_out J host graph u (poll J host graph run) nodes))
                (apply_batch_ok J host graph outs run'
                  (batch_out-Inside J host graph (poll J host graph run) nodes all_in)))
      ]

  first_remaining :
      (run : Run J) (nodes : List WorkflowNode) (u : String)
      → filter (λ id. not (is_over run.finished_ids run.skipped_ids id)) (ids J host graph nodes)
        ≡ []
      → contains u (ids J host graph nodes) ≡ true
      → is_over run.finished_ids run.skipped_ids u ≡ true
  unfolding contains
  first_remaining run [] u h inside = cc
  first_remaining run (n ∷ nodes) u h inside =
      elim (Bool-cases (is_over run.finished_ids run.skipped_ids n.node_id)) [
        | inl over ↦ ground (arith, first_remaining run nodes u (rw over at h), eq→path n.node_id u)
        | inr left ↦ absurd (cons-ne (rw left at h))
      ]

  idle_step :
      (before run : Run J) (left : List String) (progressed : Bool)
      → run.finished_ids ≡ before.finished_ids
      → Grows before.skipped_ids run.skipped_ids
      → (left ≡ []
          → (u : String) → Inside J host graph u
          → is_over before.finished_ids before.skipped_ids u ≡ true)
      → (progressed ≡ true
          → (u : String) × Inside J host graph u
            × (contains u before.skipped_ids ≡ false)
            × (contains u run.skipped_ids ≡ true))
      → StepOk before (idle_round J host graph run left progressed)
  unfolding idle_round checkpoint
  idle_step before run [] progressed same grows done p =
      λ h u inside. ground (arith, done refl u inside, grows u)
  idle_step before run (id ∷ left) false same grows done p = λ h. cc
  idle_step before run (id ∷ left) true same grows done p =
      let more = p refl in ((λ u h. ground arith), grows, more.0, more.1, inr (more.2, more.3))

  runnable_open :
      (run : Run J) (n : WorkflowNode)
      → is_runnable J host graph run n ≡ true
      → is_over run.finished_ids run.skipped_ids n.node_id ≡ false
  unfolding is_runnable is_ready
  runnable_open run n h =
      ground (arith, contains-ready_nodes graph run.finished_ids run.skipped_ids n.node_id)

  runnable-Inside :
      (run : Run J) (n : WorkflowNode)
      → is_runnable J host graph run n ≡ true
      → Inside J host graph n.node_id
  unfolding is_runnable
  runnable-Inside run n h =
      ground (arith, contains-ready_nodes graph run.finished_ids run.skipped_ids n.node_id)

  All-Inside :
      (run : Run J) (nodes : List WorkflowNode) (v : String)
      → All (λ n. is_runnable J host graph run n ≡ true) nodes
      → contains v (ids J host graph nodes) ≡ true
      → Inside J host graph v
  unfolding contains
  All-Inside run [] v good h = cc
  All-Inside run (n ∷ nodes) v good h = elim (Bool-cases (n.node_id == v)) [
    | inl same ↦
        subst (λ x. Inside J host graph x) (eq→path n.node_id v same) (runnable-Inside run n good.0)
    | inr other ↦ All-Inside run nodes v good.1 (ground arith)
  ]

  nothing_yet :
      (v : String) (us : List String)
      → (contains v [] || contains v us) ≡ true
      → contains v us ≡ true
  unfolding contains
  nothing_yet v us h = ground arith

  runnable_step :
      (run : Run J) (nodes : List WorkflowNode)
      → All (λ n. is_runnable J host graph run n ≡ true) nodes
      → StepOk run (runnable_round J host graph run nodes)
  unfolding runnable_round mark remaining
  runnable_step run [] good =
      idle_step run (mark J host graph run) (remaining J host graph run)
        (mark_condition_skips J graph.nodes run.vars run.skipped_ids).1 refl
        (mark-Grows J graph.nodes run.vars run.skipped_ids)
        (λ h u inside. first_remaining run graph.nodes u h inside)
        (mark_progress J graph.nodes run.vars run.skipped_ids)
  runnable_step run (n ∷ nodes) good =
      let g : Gate J = record {
        skipped_ids = run.skipped_ids;
        to_execute = [];
        gated_pending = none;
        requests = run.requests;
      } in
      let g' = gate_all J host graph run.round (n ∷ nodes) g in
      let ok = gate_all_ok J host graph run.round (n ∷ nodes) g in
      gate_step run (record run { skipped_ids = g'.skipped_ids; requests = g'.requests })
        g'.to_execute g'.gated_pending n.node_id refl ok.0 (runnable-Inside run n good.0)
        (runnable_open run n good.0)
        (λ v h.
          All-Inside run (n ∷ nodes) v good
            (nothing_yet v (ids J host graph (n ∷ nodes)) (ok.2 v h)))
        (ok.1 n.node_id (unfold contains in ground (arith, eq_self n.node_id)))

  -- Every pass goes on with one more node over, or stops; it ends at the end only when every
  -- node is over.
  pub round_step_ok : (run : Run J) → StepOk run (round_step J host graph run)
  unfolding round_step poll checkpoint
  round_step_ok run = elim (Bool-cases (host.cancelled run.polls)) [
    | inl cancelled ↦ rw cancelled (λ h. cc)
    | inr goes ↦
        let run' : Run J = record (poll J host graph run) { round = suc run.round } in
        rw goes (
          runnable_step run' (filter (is_runnable J host graph run') graph.nodes)
            (filter-All (is_runnable J host graph run') graph.nodes))
  ]
