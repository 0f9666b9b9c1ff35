-- ===== src/Repository/Frame.antt =====
-- services/repository/managers: what holds of a method because it holds of each part. A relation of
-- the states before and after is followed through the do blocks.
use vision_virtual_intellige.Prelude.{
  refl, ℕ, suc, String, ◌≡◌, Bool, true, false, Option, none, some, List, [], ◌∷◌, ◌++◌, contains,
  Bool-cases, inl, inr,
}
use vision_virtual_intellige.Repository.Names.{
  Result, ok, raised, protected_branches, assert_not_protected, Kind,
}
use vision_virtual_intellige.Repository.Store.{
  Branch, PullRequest, PullRequestStatus, World, RepositoryDeps, Action, Call, Effect,
  RepositoryEvent, lift, or_raise, log_effect, and_then,
}
use vision_virtual_intellige.Repository.Managers.{
  require, record_and_publish, publish, get_repository_row,
}

-- The calls that change a branch by its name name a protected one.
abbrev pub writes_protected : Call → Bool
writes_protected (Call.create_branch owner repo name base) = contains name protected_branches
writes_protected (Call.delete_branch owner repo name) = contains name protected_branches
writes_protected (Call.commit_files owner repo name) = contains name protected_branches
writes_protected _ = false

abbrev pub is_merge : Call → Bool
is_merge (Call.merge_pull_request owner repo number message) = true
is_merge _ = false

-- A reflexive and transitive relation that the parts keep.
pub record Frame (R : World → World → Type 0) : Type 0 where
  pub stay : (w : World) → R w w
  pub also : (u v w : World) → R u v → R v w → R u w
  pub calls :
      (c : Call) (w : World)
      → writes_protected c ≡ false
      → is_merge c ≡ false
      → R w (log_effect (Effect.called c) w)
  pub records : (e : RepositoryEvent) (w : World) → R w (log_effect (Effect.recorded e) w)
  pub publishes : (s : String) (w : World) → R w (log_effect (Effect.published s) w)
  pub sets_branches :
      (rows : List Branch) (issued : ℕ) (w : World)
      → R w (record w { branches = rows; issued = issued })
  pub adds_pull_request :
      (row : PullRequest) (w : World)
      → row.status ≡ PullRequestStatus.open_
      → R w (record w { pull_requests = w.pull_requests ++ row ∷ []; issued = suc w.issued })

-- Of a relation that is only reflexive: parts that leave the state, and what they let through.
module _ (R : World → World → Type 0) (stay : (w : World) → R w w) where
  pub given_then :
      {A B : Type 0} (k : A → Action B) (a : A) (w u : World)
      → R w (k a u).1
      → R w (and_then k (ok a, u)).1
  unfolding and_then
  given_then k a w u h = h

  pub or_raise_then :
      {A B : Type 0} (found : Option A) (kind : Kind) (k : A → Action B) (w : World)
      → ((a : A) → found ≡ some a → R w (k a w).1)
      → R w (and_then k (or_raise found kind w)).1
  unfolding and_then
  or_raise_then none kind k w h = stay w
  or_raise_then (some a) kind k w h = h a refl

  pub require_then :
      {B : Type 0} (c : Bool) (kind : Kind) (k : Unit → Action B) (w : World)
      → (c ≡ true → R w (k tt w).1)
      → R w (and_then k (require c kind w)).1
  unfolding and_then
  require_then true kind k w h = h refl
  require_then false kind k w h = stay w

module _ (R : World → World → Type 0) (frame : Frame R) where
  -- A method's first part, and what follows it.
  pub followed :
      {A B : Type 0} (k : A → Action B) (w : World) (done : Result A × World)
      → R w done.1
      → ((a : A) (u : World) → R u (k a u).1)
      → R w (and_then k done).1
  unfolding and_then
  followed k w (ok a, u) h hk = frame.also w u (k a u).1 h (hk a u)
  followed k w (raised kind, u) h hk = h

  pub or_raise-stay :
      {A : Type 0} (found : Option A) (kind : Kind) (w : World) → R w (or_raise found kind w).1
  or_raise-stay none kind w = frame.stay w
  or_raise-stay (some a) kind w = frame.stay w

  pub get_repository_row-stay :
      (project_id : String) (w : World) → R w (get_repository_row project_id w).1
  get_repository_row-stay project_id w =
      followed _ w _ (frame.stay w) (λ found u. or_raise-stay found _ u)

  -- The guard of protected branches, and what follows it.
  pub guarded :
      {B : Type 0} (name : String) (k : Unit → Action B) (w : World)
      → (contains name protected_branches ≡ false → R w (k tt w).1)
      → R w (and_then k (lift (assert_not_protected name) w)).1
  unfolding assert_not_protected and_then
  guarded name k w h = elim (Bool-cases (contains name protected_branches)) [
    | inl hit ↦ rw hit (frame.stay w)
    | inr safe ↦ rw safe (h safe)
  ]

  pub publish-kept :
      (nats : Bool) (event_type : String) (w : World) → R w (publish nats event_type w).1
  publish-kept true event_type w = frame.publishes event_type w
  publish-kept false event_type w = frame.stay w

  -- An audit event and its message.
  pub audit-kept :
      (deps : RepositoryDeps)
      (event_type repository_id project_id entity_type entity_id actor : String) (w : World)
      → R w
          (record_and_publish deps event_type repository_id project_id entity_type entity_id actor
            w).1
  audit-kept deps event_type repository_id project_id entity_type entity_id actor w =
      followed _ w _ (frame.records _ w) (λ _ u. publish-kept deps.nats event_type u)

  -- The same before a result that changes nothing.
  pub record_and_publish-kept :
      {B : Type 0} (deps : RepositoryDeps)
      (event_type repository_id project_id entity_type entity_id actor : String) (r : Result B)
      (w : World)
      → R w
          (and_then
            (λ _. lift r)
            (record_and_publish deps event_type repository_id project_id entity_type entity_id actor
              w)).1
  record_and_publish-kept deps event_type repository_id project_id entity_type entity_id actor r w =
      followed _ w _
        (audit-kept deps event_type repository_id project_id entity_type entity_id actor w)
        (λ _ u. frame.stay u)

  -- The same where only the state with the event is known to follow.
  pub audit-then :
      {B : Type 0} (k : Unit → Action B) (deps : RepositoryDeps) (e : RepositoryEvent) (w u : World)
      → R w (log_effect (Effect.recorded e) u)
      → ((v : World) → R v (k tt v).1)
      → R w
          (and_then k (
            record_and_publish deps e.event_type e.repository_id e.project_id e.entity_type
              e.entity_id e.actor u)).1
  audit-then k deps e w u h hk =
      followed k w _ (followed _ w _ h (λ _ v. publish-kept deps.nats e.event_type v)) (λ _ v. hk v)
