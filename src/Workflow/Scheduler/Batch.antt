-- ===== src/Workflow/Scheduler/Batch.antt =====
-- A batch finishes all its nodes, or stops at the first that fails.
use aura_launcher.Common.{
  ◌≡◌, refl, String, true, ◌||◌, some, List, [], ◌∷◌, map, arith, string_eq, ◌==◌, eq_self, eq→path,
  Bool-cases, inl, inr, Result, ok, err, All, ◌≢◌, str_lt,
}
use aura_launcher.Common.Ids.{contains, contains-insert}
use aura_launcher.Workflow.Graph.{WorkflowNode, WorkflowGraph, node_ids}
use aura_launcher.Workflow.Engine.{Json}
use aura_launcher.Workflow.Scheduler.{
  Host, Run, Step, stop, go, panicked, Output, at_end, at_failure, checkpoint, insert_output,
  batch_out, apply_out, apply_batch, and_then,
}
use aura_launcher.Workflow.Scheduler.Sets.{Grows, insert-Grows, find-node}
use aura_launcher.Workflow.Scheduler.Gating.{ids}

module _ (J : Json) (host : Host J) (graph : WorkflowGraph) where
  abbrev pub Inside : String → Type 0
  Inside u = contains u (node_ids graph) ≡ true

  -- What the application of a batch does.
  abbrev pub BatchOk : List (Output J host graph) → Run J → Step J → Type 0
  BatchOk outs run (go run') =
      (run'.skipped_ids ≡ run.skipped_ids)
      × Grows run.finished_ids run'.finished_ids
      × ((u : String)
          → contains u (map (λ o. o.0) outs) ≡ true
          → contains u run'.finished_ids ≡ true)
  BatchOk outs run (stop s run') = s ≢ at_end
  BatchOk outs run panicked = ⊥

  failure-ne : (id e : String) → at_failure id e ≢ at_end
  failure-ne id e = λ h. cc

  apply_out_ok :
      (o : Output J host graph) (n : WorkflowNode) (run : Run J) (r : Result String J.Value)
      → BatchOk ((o.0, r) ∷ []) run (apply_out J host graph o.0 r (some n) run)
  unfolding apply_out checkpoint contains
  apply_out_ok o n run (ok v) = (
    refl,
    insert-Grows o.0 run.finished_ids,
    λ u h. ground (arith, contains-insert o.0 u run.finished_ids, eq→path o.0 u),
  )
  apply_out_ok o n run (err e) = failure-ne o.0 e

  batch_go :
      (o : Output J host graph) (outs : List (Output J host graph)) (run run' : Run J)
      (step : Step J)
      → BatchOk (o ∷ []) run (go run')
      → BatchOk outs run' step
      → BatchOk (o ∷ outs) run step
  unfolding contains
  batch_go o outs run run' (go run'') a b = (
    ground (arith, a.0, b.0),
    (λ u h. b.1 u (a.1 u h)),
    λ u h. ground (arith, b.1 u, b.2 u, a.2 u),
  )
  batch_go o outs run run' (stop s run'') a b = b
  batch_go o outs run run' panicked a b = b

  batch_cons :
      (o : Output J host graph) (outs : List (Output J host graph)) (run : Run J) (step : Step J)
      (rest : Run J → Step J)
      → BatchOk (o ∷ []) run step
      → ((run' : Run J) → BatchOk outs run' (rest run'))
      → BatchOk (o ∷ outs) run (and_then J host graph step rest)
  batch_cons o outs run (stop s run') rest a b = a
  batch_cons o outs run panicked rest a b = a
  batch_cons o outs run (go run') rest a b = batch_go o outs run run' (rest run') a (b run')

  abbrev pub AllInside : List (Output J host graph) → Type 0
  AllInside outs = All (λ o. Inside o.0) outs

  pub apply_batch_ok :
      (outs : List (Output J host graph)) (run : Run J)
      → AllInside outs
      → BatchOk outs run (apply_batch J host graph outs run)
  unfolding apply_batch
  apply_batch_ok [] run inside = unfold contains in (refl, (λ u h. h), λ u h. cc)
  apply_batch_ok (o ∷ outs) run inside =
      let found = find-node o.0 graph.nodes inside.0 in
      rw (found.1) (
        batch_cons o outs run (apply_out J host graph o.0 o.1 (some found.0) run)
          (λ run'. apply_batch J host graph outs run') (apply_out_ok o found.0 run o.1)
          (λ run'. apply_batch_ok outs run' inside.1))

  insert_output-Inside :
      (o : Output J host graph) (outs : List (Output J host graph))
      → Inside o.0
      → AllInside outs
      → AllInside (insert_output J host graph o outs)
  unfolding insert_output
  insert_output-Inside o [] i is = (i, tt)
  insert_output-Inside o (x ∷ xs) i is = elim (Bool-cases (str_lt x.0 o.0)) [
    | inl before ↦ rw before (is.0, insert_output-Inside o xs i is.1)
    | inr after ↦ rw after (i, is)
  ]

  contains-insert_output :
      (u : String) (o : Output J host graph) (outs : List (Output J host graph))
      → contains u (map (λ o. o.0) (insert_output J host graph o outs))
        ≡ ((o.0 == u) || contains u (map (λ o. o.0) outs))
  unfolding insert_output contains
  contains-insert_output u o [] = refl
  contains-insert_output u o (x ∷ xs) = ground (arith, contains-insert_output u o xs)

  pub batch_out-Inside :
      (run : Run J) (nodes : List WorkflowNode)
      → ((u : String) → contains u (ids J host graph nodes) ≡ true → Inside u)
      → AllInside (batch_out J host graph run nodes)
  unfolding batch_out contains
  batch_out-Inside run [] inside = tt
  batch_out-Inside run (n ∷ nodes) inside =
      insert_output-Inside (n.node_id, host.execute run.round n run.vars)
        (batch_out J host graph run nodes) (inside n.node_id (ground (arith, eq_self n.node_id)))
        (batch_out-Inside run nodes (λ u h. inside u (ground arith)))

  pub contains-batch_out :
      (u : String) (run : Run J) (nodes : List WorkflowNode)
      → contains u (map (λ o. o.0) (batch_out J host graph run nodes))
        ≡ contains u (ids J host graph nodes)
  unfolding batch_out contains
  contains-batch_out u run [] = refl
  contains-batch_out u run (n ∷ nodes) = ground (
    arith,
    contains-batch_out u run nodes,
    contains-insert_output u (n.node_id, host.execute run.round n run.vars)
        (batch_out J host graph run nodes),
  )
