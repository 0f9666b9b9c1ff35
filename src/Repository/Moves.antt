-- ===== src/Repository/Moves.antt =====
-- services/repository/managers/pull_request_manager.py: the states that a pull request goes through,
-- against an abstract machine.
use vision_virtual_intellige.Prelude.{
  String, ◌==◌, ◌≡◌, Bool, List, [], ◌∷◌, ◌++◌, ap, sym, subst, some, arith, eq_iff, if◌then◌else◌,
  Bool-cases, inl, inr,
}
use vision_virtual_intellige.Repository.Store.{World, PullRequest, find, update_where}
use vision_virtual_intellige.Repository.Store.PullRequestStatus.{
  open_, approved, merged, conflicted,
}
use vision_virtual_intellige.Repository.Tables.{has_id, set_pull_requests, pull_request_by_id}
use vision_virtual_intellige.Repository.Frame.{Frame}
use vision_virtual_intellige.Repository.Respects.{Provisions}

-- What a method may do to a pull request: leave it, approve it if it is open, or, if it is approved,
-- merge it or find that it conflicts.
pub data Moves : PullRequest → PullRequest → Type 0 where
  stays : (pr : PullRequest) → Moves pr pr
  approves : (pr : PullRequest) → pr.status ≡ open_ → Moves pr (record pr { status = approved })
  merges :
      (pr : PullRequest) (sha : String)
      → pr.status ≡ approved
      → Moves pr (record pr { status = merged; merge_sha = some sha })
  conflicts :
      (pr : PullRequest) → pr.status ≡ approved → Moves pr (record pr { status = conflicted })

-- Every pull request that is found is found again, as one that moved so.
unfoldable pub Moved : World → World → Type 0
Moved w u =
    (id : String) (pr : PullRequest)
    → pull_request_by_id id w ≡ some pr
    → (pr' : PullRequest) × (pull_request_by_id id u ≡ some pr') × Moves pr pr'

-- Every pull request that is found is found again unchanged.
unfoldable pub Kept : World → World → Type 0
Kept w u =
    (id : String) (pr : PullRequest)
    → pull_request_by_id id w ≡ some pr
    → pull_request_by_id id u ≡ some pr

pub find-append :
    {A : Type 0} (p : A → Bool) (xs more : List A) (x : A)
    → find p xs ≡ some x
    → find p (xs ++ more) ≡ some x
find-append p [] more x h = cc
find-append p (y ∷ xs) more x h = ground (arith, find-append p xs more x)

pub Kept-Frame : Frame Kept
unfolding Kept
Kept-Frame = record {
  stay = λ w id pr h. h;
  also = λ u v w h k id pr e. k id pr (h id pr e);
  calls = λ c w h k id pr e. e;
  records = λ e w id pr h. h;
  publishes = λ s w id pr h. h;
  sets_branches = λ rows issued w id pr h. h;
  adds_pull_request = λ row w new id pr h. find-append (has_id id) w.pull_requests (row ∷ []) pr h;
}

-- The update of the rows with an identifier changes the row that is found under it, and no other.
pub find-update_where :
    (id other : String) (f : PullRequest → PullRequest) (prs : List PullRequest) (pr : PullRequest)
    → ((x : PullRequest) → has_id other (f x) ≡ has_id other x)
    → find (has_id other) prs ≡ some pr
    → find (has_id other) (update_where (has_id id) f prs)
      ≡ some (if has_id id pr then f pr else pr)
find-update_where id other f [] pr same h = cc
find-update_where id other f (x ∷ prs) pr same h =
    ground (arith, same x, find-update_where id other f prs pr same)

find-has_id :
    (id : String) (prs : List PullRequest) (pr : PullRequest)
    → find (has_id id) prs ≡ some pr
    → pr.id ≡ id
find-has_id id [] pr h = cc
find-has_id id (x ∷ prs) pr h = ground (arith, eq_iff x.id id, find-has_id id prs pr)

-- An update of the rows under the identifier of a row that was found moves that row.
pub marked-Moved :
    (w : World) (id : String) (pr : PullRequest) (f : PullRequest → PullRequest)
    → pull_request_by_id id w ≡ some pr
    → ((x : PullRequest) → (f x).id ≡ x.id)
    → Moves pr (f pr)
    → Moved w (set_pull_requests pr.id f w)
unfolding Moved
marked-Moved w id pr f found same move other row e =
    let e' =
      find-update_where pr.id other f w.pull_requests row (λ x. ap (λ i. i == other) (same x)) e in
    elim (Bool-cases (has_id pr.id row)) [
      | inr apart ↦ (row, rw apart at e', Moves.stays row)
      | inl hit ↦
          let this : row ≡ pr = ground (
            arith,
            eq_iff row.id pr.id,
            find-has_id other w.pull_requests row e,
            find-has_id id w.pull_requests pr found,
            found,
            e,
          ) in
          (f row, rw hit at e', subst (λ x. Moves x (f x)) (sym this) move)
    ]

pub Moved-Kept : (u v w : World) → Moved u v → Kept v w → Moved u w
unfolding Moved Kept
Moved-Kept u v w h k id pr e = let (pr', found, move) = h id pr e in (pr', k id pr' found, move)

pub Kept-Provisions : Provisions Kept
unfolding Kept
Kept-Provisions = record { calls_any = λ c w h id pr e. e; adds_repository = λ row w id pr e. e }

pub Moved-stay : (w : World) → Moved w w
unfolding Moved
Moved-stay w id pr e = (pr, e, Moves.stays pr)

pub Kept-Moved : (w u : World) → Kept w u → Moved w u
unfolding Moved Kept
Kept-Moved w u h id pr e = (pr, h id pr e, Moves.stays pr)
