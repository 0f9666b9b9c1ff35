-- ===== src/Repository/Integration.antt =====
-- services/repository/managers/branch_manager.py: the branches that the database's list of types
-- leaves out.
use vision_virtual_intellige.Prelude.{none, ◌∙◌, ◌≡◌, refl, String, Option, some}
use vision_virtual_intellige.Repository.Names.{Result, ok, raised, Kind, text}
use vision_virtual_intellige.Repository.Requests.{BranchType, CreateBranchRequest}
use vision_virtual_intellige.Repository.Store.{World, RepositoryDeps, Action, or_raise, and_then}
use vision_virtual_intellige.Repository.Tables.{add_branch, repository_by_project}
use vision_virtual_intellige.Repository.Managers.{
  create_branch, get_repository_row, or_text, default_base,
}

-- The call has raised, and has left the table of branches as it was.
abbrev Fails : {A : Type 0} → World → Result A × World → Type 0
Fails w (r, v) = (kind : Kind) × (r ≡ raised kind) × (v.branches ≡ w.branches)

later-Fails :
    {A B : Type 0} (k : A → Action B) (w : World) (done : Result A × World)
    → done.1.branches ≡ w.branches
    → ((a : A) (u : World) → Fails u (k a u))
    → Fails w (and_then k done)
unfolding and_then
later-Fails k w (ok a, u) same h = let (kind, e, kept) = h a u in (kind, e, kept ∙ same)
later-Fails k w (raised kind, u) same h = (kind, refl, same)

first-Fails :
    {A B : Type 0} (k : A → Action B) (w : World) (done : Result A × World)
    → Fails w done
    → Fails w (and_then k done)
unfolding and_then
first-Fails k w (ok a, u) (kind, e, kept) = absurd (cc)
first-Fails k w (raised kind, u) h = (kind, refl, h.2)

or_raise-branches :
    {A : Type 0} (found : Option A) (kind : Kind) (w : World)
    → (or_raise found kind w).1.branches ≡ w.branches
or_raise-branches none kind w = refl
or_raise-branches (some a) kind w = refl

get_repository_row-branches :
    (project_id : String) (w : World) → (get_repository_row project_id w).1.branches ≡ w.branches
unfolding and_then
get_repository_row-branches project_id w =
    or_raise-branches (repository_by_project project_id w) _ w

add_branch-Fails :
    (id name : String) (task_id : Option String) (base sha : String) (w : World)
    → Fails w (add_branch id name "integration" task_id base sha w)
unfolding add_branch
add_branch-Fails id name task_id base sha w = (Kind.integrity, refl, refl)

-- A request for a branch of the type `integration` raises, whatever the provider answers, and leaves
-- the table of branches as it was.
pub create_branch-integration :
    (deps : RepositoryDeps) (req : CreateBranchRequest) (w : World)
    → req.branch_type ≡ BranchType.integration
    → (kind : Kind) × ((create_branch deps req w).0 ≡ raised kind)
      × ((create_branch deps req w).1.branches ≡ w.branches)
unfolding create_branch
create_branch-integration deps req w h =
    later-Fails _ w _ (get_repository_row-branches _ w) (λ repo u. later-Fails _ u _ refl (λ name u.
      later-Fails _ u _ refl (λ _ u. later-Fails _ u _ refl (λ result v. first-Fails _ v _ (
        rw h (
          add_branch-Fails repo.id result.name (or_text req.task_id req.incident_id)
            (text (or_text req.base_branch (some (default_base "integration" repo))))
            result.head_sha v))))))
