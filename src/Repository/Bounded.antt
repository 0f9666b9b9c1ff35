-- ===== src/Repository/Bounded.antt =====
-- services/repository/workflows/repository_graph.py: bounds on the retries and on the length of every
-- run along the declared edges.
use vision_virtual_intellige.Prelude.{
  ℕ, ◌+◌, ◌-◌, ◌*◌, ◌≤◌, ◌<◌, ◌≡◌, ◌≢◌, refl, ap, sym, ◌∙◌, Bool, true, Option, none, some, arith,
  nat_eq, leb, ◌&&◌, ltb, inl, inr, Bool-cases, Option-cases, subst,
}
use vision_virtual_intellige.Repository.Store.{World, RepositoryDeps}
use vision_virtual_intellige.Repository.State.{RepositoryState, retries, limit}
use vision_virtual_intellige.Repository.Workflow.{
  Node, run_node, route, route_after_action, route_approval_gate, route_after_retry, cost, stepped,
  Walk,
}
use vision_virtual_intellige.Repository.Counted.{
  at_retry, IsWithin, rank, remaining, Counts, stepped-Counts,
}

-- Where a route leads.
abbrev Leads : RepositoryState → ℕ → Option Node → Type 0
Leads s bound none = Unit
Leads s bound (some next) = IsWithin next s × (rank next < bound)

route_after_action-Leads :
    (s : RepositoryState) (target : Node)
    → retries s ≤ limit s
    → at_retry target ≡ 0
    → (bound : ℕ) → rank target < bound
    → 3 ≤ bound
    → Leads s bound (some (route_after_action s target))
unfolding route_after_action
route_after_action-Leads s target w q bound less big = ground arith

abbrev Advances : Node → RepositoryState → Node → RepositoryState → Type 0
Advances n s next t =
    IsWithin next t × (cost n + remaining next t ≤ remaining n s) × (limit t ≡ limit s)

-- From where a route leads, and the counters.
Leads-Advances :
    (n : Node) (s t : RepositoryState) (next : Node)
    → Counts s t
    → Leads t (rank n) (some next)
    → cost n ≡ 1
    → Advances n s next t
Leads-Advances n s t next c l one = (l.0, rw c.0 (rw c.1 (rw one (omega (arith, l.1)))), c.1)

abbrev leads_to_retry : Option Node → ℕ
leads_to_retry none = 0
leads_to_retry (some n) = at_retry n

route_after_retry-resumes : (t : RepositoryState) → leads_to_retry (route_after_retry t) ≡ 0
unfolding route_after_retry
route_after_retry-resumes t = ground arith

rank-le : (n : Node) → rank n ≤ 8
rank-le n = ground arith

route_after_retry-Advances :
    (s t : RepositoryState) (next : Node)
    → retries s + 1 ≤ limit s
    → retries t ≡ retries s + 1
    → limit t ≡ limit s
    → route_after_retry t ≡ some next
    → Advances Node.retry_node s next t
route_after_retry-Advances s t next w c l e =
    let none_yet : at_retry next ≡ 0 = ap leads_to_retry (sym e) ∙ route_after_retry-resumes t in
    let small = rank-le next in
    (rw c (rw l (rw none_yet (omega (arith, w)))), rw c (rw l (omega (arith, w, small))), l)

route_approval_gate-Leads :
    (t : RepositoryState)
    → (at_retry (route_approval_gate t) ≡ 0) × (rank (route_approval_gate t) ≤ 4)
unfolding route_approval_gate
route_approval_gate-Leads t = ground arith

route_approval_gate-Advances :
    (s t : RepositoryState)
    → retries s ≤ limit s
    → Counts s t
    → Advances Node.approval_node s (route_approval_gate t) t
route_approval_gate-Advances s t w c =
    let (none_yet, small) = route_approval_gate-Leads t in
    (rw c.0 (rw c.1 (rw none_yet (omega (arith, w)))), rw c.0 (rw c.1 (omega (arith, small))), c.1)

-- An action with the node that follows its success.
abbrev falls : Node → Node → Bool
falls n target =
    nat_eq (cost n) 1
    && nat_eq (at_retry n + at_retry target) 0
    && ltb (rank target) (rank n)
    && leb 3 (rank n)

falls-ne : (n target : Node) → falls n target ≡ true → n ≢ Node.retry_node
falls-ne n target h e = ground (arith, h, e)

action-Advances :
    (keeps : Bool) (deps : RepositoryDeps) (n target : Node) (s : RepositoryState) (w : World)
    → IsWithin n s
    → falls n target ≡ true
    → let t = stepped keeps deps n s w in Advances n s (route_after_action t target) t
action-Advances keeps deps n target s w i h =
    let t = stepped keeps deps n s w in
    let c = stepped-Counts keeps deps n s w (falls-ne n target h) in
    let within : retries s ≤ limit s = omega (arith, i) in
    Leads-Advances n s t (route_after_action t target) c
      (route_after_action-Leads t target (rw c.0 (rw c.1 within)) (ground (arith, h)) (rank n)
        (ground (arith, h)) (ground (arith, h)))
      (ground (arith, h))

last-Advances :
    (keeps : Bool) (deps : RepositoryDeps) (n : Node) (s : RepositoryState) (w : World)
    → IsWithin n s
    → (nat_eq (rank n) 1 && nat_eq (cost n + at_retry n) 1) ≡ true
    → Advances n s Node.finish (stepped keeps deps n s w)
last-Advances keeps deps n s w i h =
    let t = stepped keeps deps n s w in
    let c = stepped-Counts keeps deps n s w (λ e. ground (arith, h, e)) in
    let within : retries s ≤ limit s = omega (arith, i) in
    Leads-Advances n s t Node.finish c (rw c.0 (rw c.1 (omega (arith, within))), ground (arith, h))
      (ground (arith, h))

-- The node after a node.
abbrev Follows : Node → RepositoryState → RepositoryState → Option Node → Type 0
Follows n s t none = Unit
Follows n s t (some next) = Advances n s next t

route_after_retry-Follows :
    (keeps : Bool) (deps : RepositoryDeps) (s : RepositoryState) (w : World)
    → IsWithin Node.retry_node s
    → let t = stepped keeps deps Node.retry_node s w in
      Follows Node.retry_node s t (route_after_retry t)
unfolding run_node
route_after_retry-Follows keeps deps s w i =
    let t = stepped keeps deps Node.retry_node s w in
    elim (Option-cases (route_after_retry t)) [
      | inl stops ↦ rw stops tt
      | inr (next, e) ↦ rw e (route_after_retry-Advances s t next i refl refl e)
    ]

step-Follows :
    (keeps : Bool) (deps : RepositoryDeps) (n : Node) (s : RepositoryState) (w : World)
    → IsWithin n s
    → let t = stepped keeps deps n s w in Follows n s t (route n t)
unfolding route
step-Follows keeps deps Node.validate_node s w i =
    action-Advances keeps deps Node.validate_node Node.create_branch_node s w i refl
step-Follows keeps deps Node.create_branch_node s w i =
    action-Advances keeps deps Node.create_branch_node Node.commit_node s w i refl
step-Follows keeps deps Node.commit_node s w i =
    action-Advances keeps deps Node.commit_node Node.open_pr_node s w i refl
step-Follows keeps deps Node.open_pr_node s w i =
    action-Advances keeps deps Node.open_pr_node Node.approval_node s w i refl
step-Follows keeps deps Node.approval_node s w i =
    route_approval_gate-Advances s (stepped keeps deps Node.approval_node s w) (omega (arith, i))
      (stepped-Counts keeps deps Node.approval_node s w (λ e. cc))
step-Follows keeps deps Node.merge_node s w i =
    elim (Bool-cases (stepped keeps deps Node.merge_node s w).create_release) [
      | inl wanted ↦
          rw wanted (action-Advances keeps deps Node.merge_node Node.release_node s w i refl)
      | inr not_wanted ↦
          rw not_wanted
            (action-Advances keeps deps Node.merge_node Node.publish_events_node s w i refl)
    ]
step-Follows keeps deps Node.release_node s w i =
    action-Advances keeps deps Node.release_node Node.publish_events_node s w i refl
step-Follows keeps deps Node.retry_node s w i = route_after_retry-Follows keeps deps s w i
step-Follows keeps deps Node.finish s w i = tt
step-Follows keeps deps Node.publish_events_node s w i =
    last-Advances keeps deps Node.publish_events_node s w i refl
step-Follows keeps deps Node.escalate_node s w i =
    last-Advances keeps deps Node.escalate_node s w i refl
step-Follows keeps deps Node.dead_letter_node s w i =
    last-Advances keeps deps Node.dead_letter_node s w i refl

Walk-Advances :
    {keeps : Bool} {n : Node} {s : RepositoryState} {w : World} {k : ℕ} {m : Node}
    {t : RepositoryState} {u : World}
    → IsWithin n s
    → Walk keeps n s w k m t u
    → IsWithin m t × (k + remaining m t ≤ remaining n s) × (limit t ≡ limit s)
Walk-Advances i Walk.here = (i, omega arith, refl)
Walk-Advances {keeps = keeps} i (Walk.step {m = m} {t = t} {u = u} deps next r e) =
    let (i', bound, same) = Walk-Advances i r in
    let (i'', less, same') =
      subst (Follows m t (stepped keeps deps m t u)) e (step-Follows keeps deps m t u i') in
    (i'', omega (arith, bound, less), same' ∙ same)
Walk-Advances i (Walk.decide status feedback r) = Walk-Advances i r

-- Every run of the workflow that starts with its retries within their limit passes at most
-- 10 * (limit - retries) + 8 nodes besides the pauses at the approval, and keeps the retries within
-- the limit, whatever the provider answers, whoever decides, and whether or not the workflow library
-- keeps the undeclared key.
pub Walk-limited :
    {keeps : Bool} {m : Node} {s t : RepositoryState} {w u : World} {k : ℕ}
    → retries s ≤ limit s
    → Walk keeps Node.validate_node s w k m t u
    → (k ≤ 10 * (limit s - retries s) + 8) × (retries t ≤ limit s)
Walk-limited {m = m} {s = s} {t = t} h r =
    let (i, bound, same) = Walk-Advances (omega (arith, h)) r in
    (omega (arith, bound), omega (arith, i, same))
