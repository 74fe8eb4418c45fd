-- ===== src/Writeback/Requests/Intake.antt =====
-- `create`: the intake of a change request, with its `proposed` event and, for one that is applied
-- at once, a row of the outbox.
use diecast.Prelude.{
  ℕ, ◌+◌, ◌<◌, ◌≡◌, refl, Option, none, some, List, [], ◌∷◌, ◌++◌, Text, max, arith, none-ne-some,
}
use diecast.Writeback.Requests.{Request, Kind, RequestStatus, applied}
use diecast.Writeback.Requests.Apply.{
  World, Notification, append_request_event, proposed_event, blank, get_request,
}

-- What the caller passes.
pub record NewRequest : Type 0 where
  pub goal_slug : Text
  pub kind : Kind
  pub proposed_body : Text
  pub base_version : ℕ
  pub target_quote : Option Text
  pub section_hint : Option Text
  pub author : Text
  pub author_type : Text
  pub origin_phase : Option Text
  pub origin_activity_id : Option Text
  pub origin_artifact_path : Option Text
  pub status : RequestStatus

unfoldable pub max_request_id : List Request → ℕ
max_request_id [] = 0
max_request_id (r ∷ rs) = max r.id (max_request_id rs)

abbrev pub new_request : NewRequest → ℕ → ℕ → Request
new_request n i now = record {
  id = i;
  goal_slug = n.goal_slug;
  target_quote = n.target_quote;
  section_hint = n.section_hint;
  base_version = n.base_version;
  proposed_body = n.proposed_body;
  kind = n.kind;
  status = n.status;
  origin_phase = n.origin_phase;
  origin_activity_id = n.origin_activity_id;
  origin_artifact_path = n.origin_artifact_path;
  author = n.author;
  author_type = n.author_type;
  created_at = now;
  updated_at = now;
}

abbrev pub notified : RequestStatus → Request → ℕ → List Notification → List Notification
notified applied r now outbox =
    outbox ++ record { request = r; status = applied; report = none; created_at = now } ∷ []
notified _ r now outbox = outbox

unfoldable pub create : {Hash : Type 0} → NewRequest → ℕ → World Hash → Option Request × World Hash
unfolding max_request_id get_request
create n now w =
    let i = max_request_id w.requests + 1 in
    let r = new_request n i now in
    let rs = w.requests ++ r ∷ [] in
    (
      get_request i rs,
      record w {
        requests = rs;
        events = append_request_event i proposed_event (some n.author) blank now w.events;
        outbox = notified n.status r now w.outbox;
      },
    )

get_request-fresh : (i : ℕ) (rs : List Request) → max_request_id rs < i → get_request i rs ≡ none
unfolding get_request max_request_id
get_request-fresh i [] h = refl
get_request-fresh i (r ∷ rs) h = ground (arith, get_request-fresh i rs)

get_request-append :
    (i : ℕ) (rs : List Request) (r : Request)
    → max_request_id rs < i
    → r.id ≡ i
    → get_request i (rs ++ r ∷ []) ≡ some r
unfolding get_request max_request_id
get_request-append i [] r h e = ground arith
get_request-append i (q ∷ rs) r h e = ground (arith, get_request-append i rs r)

get_request-kept :
    (j : ℕ) (rs : List Request) (r q : Request)
    → get_request j rs ≡ some q
    → get_request j (rs ++ r ∷ []) ≡ some q
unfolding get_request
get_request-kept j [] r q h = absurd (none-ne-some h)
get_request-kept j (p ∷ rs) r q h = ground (arith, get_request-kept j rs r q)

-- The intake returns the request as it is stored, under an id that no request had; every request
-- that was found under its id before is found as it was; and the file and the versions are as before.
create-Recorded :
    {Hash : Type 0} (n : NewRequest) (now : ℕ) (w : World Hash)
    → let i = max_request_id w.requests + 1 in
      let (answer, after) = create n now w in
      (get_request i w.requests ≡ none)
      × (answer ≡ some (new_request n i now))
      × (get_request i after.requests ≡ answer)
      × ((j : ℕ) (q : Request)
          → get_request j w.requests ≡ some q
          → get_request j after.requests ≡ some q)
      × (after.file ≡ w.file)
      × (after.versions ≡ w.versions)
unfolding create
create-Recorded n now w =
    let i = max_request_id w.requests + 1 in
    (
      get_request-fresh i w.requests (omega arith),
      get_request-append i w.requests (new_request n i now) (omega arith) refl,
      refl,
      (λ j q h. get_request-kept j w.requests (new_request n i now) q h),
      refl,
      refl,
    )
