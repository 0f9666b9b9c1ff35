-- ===== src/Repository/Counted.antt =====
-- services/repository/workflows/repository_graph.py: what counts a retry, and the measure of a run.
use vision_virtual_intellige.Prelude.{
  ℕ, ◌+◌, ◌-◌, ◌*◌, ◌≤◌, ◌≡◌, ◌≢◌, refl, ◌∙◌, String, Bool, true, false, List, [], ◌∷◌, any, arith,
}
use vision_virtual_intellige.Repository.Names.{Result, ok, raised}
use vision_virtual_intellige.Repository.Store.{World, RepositoryDeps}
use vision_virtual_intellige.Repository.State.{RepositoryState, Write, write, merge, retries, limit}
use vision_virtual_intellige.Repository.Graph.{
  after, validate, start_branch, commit, open_pr, approve_and_merge, release,
}
use vision_virtual_intellige.Repository.Workflow.{Node, run_node, stepped}

abbrev pub at_retry : Node → ℕ
at_retry Node.retry_node = 1
at_retry _ = 0

-- The retries are within their limit, with room for the one that is about to be counted.
abbrev pub IsWithin : Node → RepositoryState → Type 0
IsWithin n s = retries s + at_retry n ≤ limit s

-- How many counted nodes a run may still pass before it next counts a retry or ends.
abbrev pub rank : Node → ℕ
rank Node.validate_node = 8
rank Node.create_branch_node = 7
rank Node.commit_node = 6
rank Node.open_pr_node = 5
rank Node.approval_node = 4
rank Node.merge_node = 4
rank Node.release_node = 3
rank Node.retry_node = 2
rank Node.publish_events_node = 1
rank Node.escalate_node = 1
rank Node.dead_letter_node = 1
rank Node.finish = 0

abbrev pub remaining : Node → RepositoryState → ℕ
remaining n s = 10 * (limit s - retries s) + rank n

-- What an action's update leaves alone.
abbrev pub Counts : RepositoryState → RepositoryState → Type 0
Counts s t = (retries t ≡ retries s) × (limit t ≡ limit s)

abbrev is_count : Write → Bool
is_count (Write.retry_count v) = true
is_count _ = false

write-Counts :
    (keeps : Bool) (s : RepositoryState) (v : Write)
    → is_count v ≡ false
    → Counts s (write keeps s v)
write-Counts true s (Write.failed_step v) h = (refl, refl)
write-Counts false s (Write.failed_step v) h = (refl, refl)
write-Counts keeps s (Write.retry_count v) h = ground (arith, h)
write-Counts keeps s _ h = (refl, refl)

merge-Counts :
    (keeps : Bool) (s : RepositoryState) (ws : List Write)
    → any is_count ws ≡ false
    → Counts s (merge keeps s ws)
merge-Counts keeps s [] h = (refl, refl)
merge-Counts keeps s (v ∷ ws) h =
    let first = write-Counts keeps s v (ground (arith, h)) in
    let rest = merge-Counts keeps (write keeps s v) ws (ground (arith, h)) in
    (rest.0 ∙ first.0, rest.1 ∙ first.1)

after-quiet :
    {A : Type 0} (step : String) (updates : A → List Write) (r : Result A)
    → ((a : A) → any is_count (updates a) ≡ false)
    → any is_count (after step updates r) ≡ false
after-quiet step updates (ok a) h = h a
after-quiet step updates (raised kind) h = refl

-- No node but the retry counts.
run_node-quiet :
    (deps : RepositoryDeps) (n : Node) (s : RepositoryState) (w : World)
    → n ≢ Node.retry_node
    → any is_count (run_node deps n s w).0 ≡ false
unfolding run_node
run_node-quiet deps Node.validate_node s w h = after-quiet _ _ (validate deps s w).0 (λ a. refl)
run_node-quiet deps Node.create_branch_node s w h =
    after-quiet _ _ (start_branch deps s w).0 (λ a. refl)
run_node-quiet deps Node.commit_node s w h = after-quiet _ _ (commit deps s w).0 (λ a. refl)
run_node-quiet deps Node.open_pr_node s w h = after-quiet _ _ (open_pr deps s w).0 (λ a. refl)
run_node-quiet deps Node.merge_node s w h =
    after-quiet _ _ (approve_and_merge deps s w).0 (λ a. refl)
run_node-quiet deps Node.release_node s w h = after-quiet _ _ (release deps s w).0 (λ a. refl)
run_node-quiet deps Node.retry_node s w h = absurd (h refl)
run_node-quiet deps _ s w h = refl

pub stepped-Counts :
    (keeps : Bool) (deps : RepositoryDeps) (n : Node) (s : RepositoryState) (w : World)
    → n ≢ Node.retry_node
    → Counts s (stepped keeps deps n s w)
stepped-Counts keeps deps n s w h =
    merge-Counts keeps s (run_node deps n s w).0 (run_node-quiet deps n s w h)
