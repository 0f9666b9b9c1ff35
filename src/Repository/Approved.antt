-- ===== src/Repository/Approved.antt =====
-- services/repository/managers/pull_request_manager.py: what the audit log and the table know of
-- approvals.
use vision_virtual_intellige.Prelude.{
  String, ◌==◌, ◌≡◌, true, false, some, List, [], ◌∷◌, ◌++◌, arith, eq_iff, refl, ap, subst,
  Bool-cases, inl, inr,
}
use vision_virtual_intellige.Repository.Store.{
  PullRequest, PullRequestStatus, Repository, Effect, update_where, find,
}
use vision_virtual_intellige.Repository.Tables.{has_id}
use vision_virtual_intellige.Repository.Managers.{is_open}
use vision_virtual_intellige.Repository.Gate.{
  approval_recorded, is_numbered, number_approved, IsApproved,
}

pub log-IsApproved :
    (log log' : List Effect) (prs : List PullRequest)
    → ((id : String) → approval_recorded id log ≡ true → approval_recorded id log' ≡ true)
    → IsApproved log prs
    → IsApproved log' prs
unfolding IsApproved
log-IsApproved log log' [] more h = tt
log-IsApproved log log' (pr ∷ prs) more h =
    ground (arith, more pr.id, log-IsApproved log log' prs more h.1, h.0)

pub append-IsApproved :
    (log : List Effect) (prs : List PullRequest) (row : PullRequest)
    → row.status ≡ PullRequestStatus.open_
    → IsApproved log prs
    → IsApproved log (prs ++ row ∷ [])
unfolding IsApproved
append-IsApproved log [] row e h = (inl (rw e refl), tt)
append-IsApproved log (pr ∷ prs) row e h = (h.0, append-IsApproved log prs row e h.1)

pub update-IsApproved :
    (log : List Effect) (id : String) (f : PullRequest → PullRequest) (prs : List PullRequest)
    → ((x : PullRequest) → (f x).id ≡ x.id)
    → approval_recorded id log ≡ true
    → IsApproved log prs
    → IsApproved log (update_where (has_id id) f prs)
unfolding IsApproved
update-IsApproved log id f [] same e h = tt
update-IsApproved log id f (pr ∷ prs) same e h = (
  elim (Bool-cases (has_id id pr)) [
    | inl hit ↦ rw hit (inr (rw (same pr) (rw ((eq_iff pr.id id).0 hit) e)))
    | inr miss ↦ rw miss h.0
  ],
  update-IsApproved log id f prs same e h.1,
)

pub find-IsApproved :
    (log : List Effect) (id : String) (prs : List PullRequest) (pr : PullRequest)
    → find (has_id id) prs ≡ some pr
    → is_open pr.status ≡ false
    → IsApproved log prs
    → approval_recorded pr.id log ≡ true
unfolding IsApproved
find-IsApproved log id [] pr e n h = cc
find-IsApproved log id (x ∷ prs) pr e n h = elim (Bool-cases (has_id id x)) [
  | inl hit ↦
      let this : x ≡ pr = ground (arith, e, hit) in
      elim h.0 [
        | inl opened ↦ ground (arith, ap (λ (y : PullRequest). is_open y.status) this, opened, n)
        | inr known ↦ subst (λ (y : PullRequest). approval_recorded y.id log ≡ true) this known
      ]
  | inr miss ↦ find-IsApproved log id prs pr (ground (arith, e, miss)) n h.1
]

is_numbered-own :
    (repos : List Repository) (pr : PullRequest) (repo : Repository)
    → find (λ r. r.id == pr.repository_id) repos ≡ some repo
    → is_numbered repos repo.owner repo.name pr.provider_pr_number pr ≡ true
unfolding is_numbered
is_numbered-own repos pr repo r =
    rw r (ground (arith, eq_iff repo.owner repo.owner, eq_iff repo.name repo.name))

pub find-number_approved :
    (repos : List Repository) (prs : List PullRequest) (log : List Effect) (id : String)
    (pr : PullRequest) (repo : Repository)
    → find (has_id id) prs ≡ some pr
    → find (λ r. r.id == pr.repository_id) repos ≡ some repo
    → approval_recorded pr.id log ≡ true
    → number_approved repos prs log repo.owner repo.name pr.provider_pr_number ≡ true
unfolding number_approved
find-number_approved repos [] log id pr repo e r a = cc
find-number_approved repos (x ∷ prs) log id pr repo e r a = elim (Bool-cases (has_id id x)) [
  | inl hit ↦
      let this : x ≡ pr = ground (arith, e, hit) in
      rw this (rw (is_numbered-own repos pr repo r) (rw a refl))
  | inr miss ↦
      let rest = find-number_approved repos prs log id pr repo (ground (arith, e, miss)) r a in
      ground (arith, rest)
]

pub effect-approval_recorded :
    (e : Effect) (log : List Effect) (id : String)
    → approval_recorded id log ≡ true
    → approval_recorded id (e ∷ log) ≡ true
unfolding approval_recorded
effect-approval_recorded (Effect.called c) log id h = h
effect-approval_recorded (Effect.recorded event) log id h = ground (arith, h)
effect-approval_recorded (Effect.published s) log id h = h

pub effect-IsApproved :
    (e : Effect) (log : List Effect) (prs : List PullRequest)
    → IsApproved log prs
    → IsApproved (e ∷ log) prs
effect-IsApproved e log prs = log-IsApproved log (e ∷ log) prs (effect-approval_recorded e log)
