-- ===== src/Repository/Gate.antt =====
-- services/repository/managers/pull_request_manager.py: the approval gate of merges.
use vision_virtual_intellige.Prelude.{
  ℕ, String, ◌==◌, ◌≡◌, Bool, true, false, ◌&&◌, ◌||◌, Option, none, some, List, [], ◌∷◌, ◌++◌, any,
  any-append, nat_eq, arith, refl, ◌∙◌, Option-cases, inl, inr, ◌⊎◌,
}
use vision_virtual_intellige.Repository.Store.{
  PullRequest, Repository, World, Effect, Call, update_where, find,
}
use vision_virtual_intellige.Repository.Tables.{has_id}
use vision_virtual_intellige.Repository.Managers.{is_open}
use vision_virtual_intellige.Repository.Moves.{find-append}

-- The log records an approval of the pull request.
unfoldable pub approval_recorded : String → List Effect → Bool
approval_recorded id [] = false
approval_recorded id (Effect.recorded e ∷ log) =
    e.event_type == "repository.pr.approved" && e.entity_id == id || approval_recorded id log
approval_recorded id (_ ∷ log) = approval_recorded id log

abbrev stands_at : String → String → Option Repository → Bool
stands_at owner name none = false
stands_at owner name (some repo) = repo.owner == owner && repo.name == name

-- The pull request has the number in the repository of the owner and name.
unfoldable pub is_numbered : List Repository → String → String → ℕ → PullRequest → Bool
is_numbered repos owner name number pr =
    nat_eq pr.provider_pr_number number
    && stands_at owner name (find (λ r. r.id == pr.repository_id) repos)

-- A pull request with the number in the repository has its approval recorded.
unfoldable pub number_approved :
    List Repository → List PullRequest → List Effect → String → String → ℕ → Bool
unfolding approval_recorded is_numbered
number_approved repos prs log owner name number =
    any (λ pr. is_numbered repos owner name number pr && approval_recorded pr.id log) prs

-- The log before each call that merges a number of a repository records the approval of a pull
-- request with that number.
unfoldable pub IsGated : List Repository → List PullRequest → List Effect → Type 0
unfolding number_approved
IsGated repos prs [] = Unit
IsGated repos prs (Effect.called (Call.merge_pull_request owner name number message) ∷ log) =
    (number_approved repos prs log owner name number ≡ true) × IsGated repos prs log
IsGated repos prs (_ ∷ log) = IsGated repos prs log

-- Every pull request that is not open has its approval recorded.
unfoldable pub IsApproved : List Effect → List PullRequest → Type 0
unfolding approval_recorded
IsApproved log [] = Unit
IsApproved log (pr ∷ prs) =
    ((is_open pr.status ≡ true) ⊎ (approval_recorded pr.id log ≡ true)) × IsApproved log prs

abbrev pub Gated : World → Type 0
Gated w = IsGated w.repositories w.pull_requests w.log × IsApproved w.log w.pull_requests

-- Where a later log, more repositories and later pull requests know more approvals, the gate stands.
IsGated-more :
    (repos repos' : List Repository) (prs prs' : List PullRequest) (log : List Effect)
    → ((log : List Effect) (owner name : String) (number : ℕ)
        → number_approved repos prs log owner name number ≡ true
        → number_approved repos' prs' log owner name number ≡ true)
    → IsGated repos prs log
    → IsGated repos' prs' log
unfolding IsGated
IsGated-more repos repos' prs prs' [] more h = tt
IsGated-more repos repos' prs prs'
      (Effect.called (Call.merge_pull_request owner name number m) ∷ log) more h =
    (more log owner name number h.0, IsGated-more repos repos' prs prs' log more h.1)
IsGated-more repos repos' prs prs' (Effect.called _ ∷ log) more h =
    IsGated-more repos repos' prs prs' log more h
IsGated-more repos repos' prs prs' (Effect.recorded e ∷ log) more h =
    IsGated-more repos repos' prs prs' log more h
IsGated-more repos repos' prs prs' (Effect.published s ∷ log) more h =
    IsGated-more repos repos' prs prs' log more h

any-more :
    {A : Type 0} (p q : A → Bool) (xs : List A)
    → ((x : A) → p x ≡ true → q x ≡ true)
    → any p xs ≡ true
    → any q xs ≡ true
any-more p q [] more h = h
any-more p q (x ∷ xs) more h = ground (arith, more x, any-more p q xs more)

any-update_where :
    {A : Type 0} (p q : A → Bool) (f : A → A) (xs : List A)
    → ((x : A) → p (f x) ≡ p x)
    → any p (update_where q f xs) ≡ any p xs
any-update_where p q f [] same = refl
any-update_where p q f (x ∷ xs) same = ground (arith, same x, any-update_where p q f xs same)

is_numbered-append :
    (repos more : List Repository) (owner name : String) (number : ℕ) (pr : PullRequest)
    → is_numbered repos owner name number pr ≡ true
    → is_numbered (repos ++ more) owner name number pr ≡ true
unfolding is_numbered
is_numbered-append repos more owner name number pr h =
    elim (Option-cases (find (λ (r : Repository). r.id == pr.repository_id) repos)) [
      | inl missing ↦ ground (arith, missing, h)
      | inr (repo, found) ↦ ground (
        arith,
        h,
        found,
        find-append (λ (r : Repository). r.id == pr.repository_id) repos more repo found,
      )
    ]

pub repositories-IsGated :
    (repos more : List Repository) (prs : List PullRequest) (log : List Effect)
    → IsGated repos prs log
    → IsGated (repos ++ more) prs log
unfolding number_approved
repositories-IsGated repos more prs log =
    IsGated-more repos (repos ++ more) prs prs log (λ log owner name number.
      any-more _ _ prs (λ pr h. ground (arith, is_numbered-append repos more owner name number pr)))

pub pull_requests-IsGated :
    (repos : List Repository) (prs more : List PullRequest) (log : List Effect)
    → IsGated repos prs log
    → IsGated repos (prs ++ more) log
unfolding number_approved
pull_requests-IsGated repos prs more log =
    IsGated-more repos repos prs (prs ++ more) log
      (λ log owner name number h. any-append _ prs more ∙ ground (arith, h))

pub update-IsGated :
    (repos : List Repository) (id : String) (f : PullRequest → PullRequest) (prs : List PullRequest)
    (log : List Effect)
    → ((x : PullRequest) → (f x).id ≡ x.id)
    → ((x : PullRequest) → (f x).repository_id ≡ x.repository_id)
    → ((x : PullRequest) → (f x).provider_pr_number ≡ x.provider_pr_number)
    → IsGated repos prs log
    → IsGated repos (update_where (has_id id) f prs) log
unfolding number_approved is_numbered
update-IsGated repos id f prs log same same' same'' =
    IsGated-more repos repos prs (update_where (has_id id) f prs) log (λ log owner name number h.
      any-update_where _ (has_id id) f prs (λ x. rw (same x) (rw (same' x) (rw (same'' x) refl)))
      ∙ h)
