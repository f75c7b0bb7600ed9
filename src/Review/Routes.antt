-- ===== src/Review/Routes.antt =====
-- http/review.py: the routes of the review API. Flask, the rate limiter and pydantic's parsing of the
-- query string are left out: a request brings its Authorization header and the parsed query, `none`
-- where pydantic refuses it.
use Prim.Native.Char.{code}
use starkbank_backend_challe.Base.{
  ℕ, Bool, true, not, ◌&&◌, leb, Option, none, some, List, [], String, ◌<>◌, ◌==◌, length,
  if◌then◌else◌,
}
use starkbank_backend_challe.Config.{ReviewApiConfig}
use starkbank_backend_challe.Domain.Errors.{Result, ok, err, value_error, provider, is_transient}
use starkbank_backend_challe.Domain.Models.{ProviderWebhook}
use starkbank_backend_challe.Base.Keyset.{NewestFirst}
use starkbank_backend_challe.Schema.{Database}
use starkbank_backend_challe.Review.Cursor.{Codec}
use starkbank_backend_challe.Review.Page.{ReviewQuery, ReviewPage, empty_query}
use starkbank_backend_challe.Review.Payloads.{TrialPayload, BatchPayload}
use starkbank_backend_challe.Review.Overview.{Overview}
use starkbank_backend_challe.Review.Store.{overview, batches}

-- A body with 200, an error with its status code, or an exception, which Flask answers with 500.
pub data Response (B : Type 0) : Type 0 where
  answer : B → Response B
  failure : (code : ℕ) → (error : String) → Response B
  exception : Response B

-- `jsonify(data=…, pagination={…})`: the `limit` that it states is the number of items.
pub record PageBody (B : Type 0) : Type 0 where
  pub data_ : List B
  pub limit : ℕ
  pub total : ℕ
  pub next_cursor : Option String

unfoldable pub page_response : {B : Type 0} → ReviewPage B → PageBody B
page_response page = record {
  data_ = page.items;
  limit = length page.items;
  total = page.total;
  next_cursor = page.next_cursor;
}

-- What a view returns or raises, inside `protected`: ValueError is answered with 400.
unfoldable pub caught : {B : Type 0} → Result B → Response B
caught (ok body) = answer body
caught (err (value_error _)) = failure 400 "invalid_review_query"
caught (err _) = exception

-- A text of ASCII characters.
unfoldable pub is_ascii : String → Bool
is_ascii String.[] = true
is_ascii (String.◌∷◌ c s) = let rest = is_ascii s in leb (code c) 127 && rest

-- `protected`: `compare_digest` raises TypeError on a text with other characters than ASCII.
unfoldable pub protected : {B : Type 0} → ReviewApiConfig → String → Response B → Response B
protected config authorization response =
    if not (is_ascii authorization && is_ascii ("Bearer " <> config.token))
    then exception
    else if authorization == ("Bearer " <> config.token)
    then response
    else failure 401 "review_authentication_required"

-- `query`
unfoldable pub query_or_raise : Option ReviewQuery → Result ReviewQuery
query_or_raise none = err (value_error "invalid_review_query")
query_or_raise (some query) = ok query

unfoldable pub list_view :
    {B : Type 0} → (ReviewQuery → Result (ReviewPage B)) → Option ReviewQuery → Result (PageBody B)
list_view loader none = err (value_error "invalid_review_query")
list_view loader (some query) = elim (loader query) [
  | ok page ↦ ok (page_response page)
  | err e ↦ err e
]

-- `add_list_route`
unfoldable pub list_route :
    {B : Type 0}
    → ReviewApiConfig
    → (ReviewQuery → Result (ReviewPage B))
    → String
    → Option ReviewQuery
    → Response (PageBody B)
list_route config loader authorization query =
    protected config authorization (caught (list_view loader query))

unfoldable pub detail_view : {B : Type 0} → Option B → Response B
detail_view none = failure 404 "review_resource_not_found"
detail_view (some body) = answer body

-- `add_detail_route`
unfoldable pub detail_route :
    {B : Type 0} → ReviewApiConfig → (String → Option B) → String → String → Response B
detail_route config loader authorization resource_id =
    protected config authorization (detail_view (loader resource_id))

pub record ScheduleBody : Type 0 where
  pub trial : Option TrialPayload
  pub batches : List BatchPayload

module _ (config : ReviewApiConfig) (codec : Codec) (sql : NewestFirst) (smoke_run_id : String)
    (db : Database) (now : ℕ) where
  unfoldable pub overview_view : Option ReviewQuery → Result Overview
  overview_view query = elim (query_or_raise query) [
    | ok q ↦ ok (overview codec sql smoke_run_id db now q.trial_id)
    | err e ↦ err e
  ]

  -- `review_overview`
  unfoldable pub overview_route : String → Option ReviewQuery → Response Overview
  overview_route authorization query = protected config authorization (caught (overview_view query))

  -- The first hundred batches of the trial, and none without a trial. The constant `policy` is left
  -- out.
  unfoldable pub schedule_of : Option TrialPayload → Result ScheduleBody
  schedule_of none = ok (record { trial = none; batches = [] })
  schedule_of (some trial) =
      elim (batches codec sql smoke_run_id db
        (record empty_query { trial_id = some trial.id; limit = 100 })) [
          | ok page ↦ ok (record { trial = some trial; batches = page.items })
          | err e ↦ err e
        ]

  unfoldable pub schedule_view : Option ReviewQuery → Result ScheduleBody
  schedule_view query = elim (query_or_raise query) [
    | ok q ↦ schedule_of (overview codec sql smoke_run_id db now q.trial_id).trial
    | err e ↦ err e
  ]

  -- `review_schedule`
  unfoldable pub schedule_route : String → Option ReviewQuery → Response ScheduleBody
  schedule_route authorization query = protected config authorization (caught (schedule_view query))

-- What `list_webhooks` of the provider, if there is one, returns or raises.
unfoldable pub webhooks_view :
    Option (Result (List ProviderWebhook)) → Response (List ProviderWebhook)
webhooks_view none = failure 503 "provider_unavailable"
webhooks_view (some (ok webhooks)) = answer webhooks
webhooks_view (some (err (provider e))) =
    if is_transient e
    then failure 503 "provider_unavailable"
    else failure 502 "provider_query_failed"
webhooks_view (some (err e)) = caught (err e)

-- `review_provider_webhooks`
unfoldable pub webhooks_route :
    ReviewApiConfig
    → String
    → Option (Result (List ProviderWebhook))
    → Response (List ProviderWebhook)
webhooks_route config authorization listed = protected config authorization (webhooks_view listed)
