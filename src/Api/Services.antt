-- ===== src/Api/Services.antt =====
-- The handlers of backend/internal/api/handlers_services.go over the lease service. A handler takes
-- the parts of the request that it reads, and gives the state of the service and the reply.
use mini_eureka.Prelude.{
  ℕ, if◌then◌else◌, Bool, false, not, ◌&&◌, ◌||◌, Option, none, some, List, [], ◌∷◌, ◌++◌, keep,
  length,
}
use mini_eureka.Prelude.Int.{ℤ}
use mini_eureka.Prelude.Text.{Text, text_eq}
use mini_eureka.Prelude.Map.{Map}
use mini_eureka.Model.Error.{Result, ok, err, text}
use mini_eureka.Model.Instance.{Instance, InstanceStatus, Protocol, status_eq}
use mini_eureka.Registry.Store.{shard_for}
use mini_eureka.Registry.Query.{ServiceSummary, discover, services, has_status}
use mini_eureka.Service.{Payloads, Service, Readings, OperationResult}
use mini_eureka.Service.Leases.{RegisterRequest, FreshIds, register, heartbeat, deregister}
use mini_eureka.Config.Csv.{split_comma}
use mini_eureka.Api.Pagination.{Base64, decode_cursor, paginate}
use mini_eureka.Api.Replies.{
  Reply, Checked, failed, replied, refused, passed, ◌>>=◌, or_refuse, reply_of, bad_cursor,
  unprocessable, domain_or_internal, service_failure, BodyReader, decode_json, query_limit,
}

-- `url.PathEscape`, and what the handlers use of the package strings.
pub record Strings : Type 0 where
  pub path_escape : Text → Text
  pub to_upper : Text → Text
  pub to_lower : Text → Text
  pub trim_space : Text → Text
  pub contains : Text → Text → Bool

-- `registerBody`
pub record RegisterBody : Type 0 where
  pub instance_id : Text
  pub registration_id : Text
  pub host : Text
  pub port : ℤ
  pub protocol : Protocol
  pub metadata : Option (Map Text Text)
  pub demo : Bool

or_empty : Option (Map Text Text) → Map Text Text
or_empty none = []
or_empty (some m) = m

-- The request that `register` makes of the path and the body.
unfoldable pub request_of : Text → RegisterBody → RegisterRequest
unfolding or_empty
request_of service b = record {
  service = service;
  instance_id = b.instance_id;
  registration_id = b.registration_id;
  host = b.host;
  port = b.port;
  protocol = b.protocol;
  metadata = some (or_empty b.metadata);
  demo = b.demo;
}

-- The `Location` header of a new registration, for the record that is answered.
unfoldable pub location : Strings → Option Instance → Text
location st none =
    text "/api/v1/services/" ++ (st.path_escape [] ++ (text "/instances/" ++ st.path_escape []))
location st (some i) =
    text "/api/v1/services/"
    ++ (st.path_escape i.service ++ (text "/instances/" ++ st.path_escape i.instance_id))

unfoldable pub register_reply : Strings → Result OperationResult → Reply (Text × OperationResult)
unfolding location
register_reply st (err e) = failed (domain_or_internal e)
register_reply st (ok r) = replied (if r.duplicate then 200 else 201) (location st r.instance, r)

-- `register`: the header and the result, of which the reply shows the record, whether it is a
-- duplicate, and the event ID.
unfoldable pub register_handler :
    Payloads
    → Strings
    → BodyReader RegisterBody
    → ℤ
    → Text
    → Text
    → Readings
    → FreshIds
    → Service
    → Service × Reply (Text × OperationResult)
unfolding request_of register_reply
register_handler pl st reader max service body rd ids s = elim (decode_json reader max body) [
  | refused f ↦ (s, failed f)
  | passed b ↦
      let (s', result) = register pl (request_of service b) rd ids s in
      (s', register_reply st result)
]

-- `operationBody`
pub record OperationBody : Type 0 where
  pub lease_id : Text
  pub operation_id : Text

-- The test that both identifiers are given.
abbrev pub ids_missing : Text → Text → Bool
ids_missing lease_id operation_id = text_eq lease_id [] || text_eq operation_id []

-- How a handler answers what the service returns: `writeServiceError`, or the result.
unfoldable pub service_reply {ℓ} : {A : Type ℓ} → ℕ → Result A → Reply A
service_reply status (err e) = failed (service_failure e)
service_reply status (ok a) = replied status a

-- `heartbeat`
unfoldable pub heartbeat_handler :
    Payloads
    → BodyReader OperationBody
    → ℤ
    → Text
    → Text
    → Text
    → Readings
    → FreshIds
    → Service
    → Service × Reply OperationResult
unfolding service_reply
heartbeat_handler pl reader max service instance_id body rd ids s =
    elim (decode_json reader max body) [
      | refused f ↦ (s, failed f)
      | passed b ↦
          let (s', result) = heartbeat pl service instance_id b.lease_id b.operation_id rd ids s in
          if ids_missing b.lease_id b.operation_id
          then (s, failed unprocessable)
          else (s', service_reply 200 result)
    ]

-- `deregister`, whose reply has no content; the event ID of the result is a header where it is given.
unfoldable pub deregister_handler :
    Payloads
    → Text
    → Text
    → Text
    → Text
    → Readings
    → FreshIds
    → Service
    → Service × Reply OperationResult
unfolding service_reply
deregister_handler pl service instance_id lease_id operation_id rd ids s =
    let (s', result) = deregister pl service instance_id lease_id operation_id false rd ids s in
    if ids_missing lease_id operation_id
    then (s, failed unprocessable)
    else (s', service_reply 204 result)

-- The parameters of a listing, each the empty text where it is not given.
pub record Query : Type 0 where
  pub cursor : Text
  pub limit : Text
  pub filter : Text

-- A page, the next cursor, without which there are no more, and how many items there are in all.
pub record Listing {ℓ} (A : Type ℓ) : Type ℓ where
  pub items : List A
  pub next_cursor : Option Text
  pub total_items : ℕ

-- The offset and the limit of a listing, in the order of their checks.
unfoldable pub read_range : Base64 → Query → ℕ → ℕ → Checked (ℕ × ℕ)
read_range b q fallback maximum = elim (decode_cursor b q.cursor) [
  | err e ↦ refused bad_cursor
  | ok offset ↦ elim (query_limit q.limit fallback maximum) [
    | none ↦ refused unprocessable
    | some limit ↦ passed (offset, limit)
  ]
]

abbrev pub listing {ℓ} : {A : Type ℓ} → Base64 → List A → ℕ × ℕ → Listing A
listing b all (offset, limit) = record {
  items = (paginate b all offset limit).0;
  next_cursor = (paginate b all offset limit).1;
  total_items = length all;
}

-- A status by its name.
unfoldable pub status_of : Text → InstanceStatus
status_of t =
    if text_eq t (text "ACTIVE")
    then InstanceStatus.active
    else if text_eq t (text "DELAYED")
    then InstanceStatus.delayed
    else if text_eq t (text "EVICTED")
    then InstanceStatus.evicted
    else InstanceStatus.unknown t

-- The loop over the values of the status parameter: none where one is neither ACTIVE nor DELAYED.
unfoldable pub read_statuses : Strings → List Text → Option (List InstanceStatus)
unfolding status_of status_eq
read_statuses st [] = some []
read_statuses st (v ∷ vs) =
    let status = status_of (st.to_upper (st.trim_space v)) in
    let rest = read_statuses st vs in
    if not (status_eq status InstanceStatus.active) && not (status_eq status InstanceStatus.delayed)
    then none
    else elim rest [ none ↦ none | some ss ↦ some (status ∷ ss) ]

unfoldable pub allowed_statuses : Strings → Text → Option (List InstanceStatus)
unfolding read_statuses split_comma
allowed_statuses st raw =
    if text_eq raw []
    then some (InstanceStatus.active ∷ InstanceStatus.delayed ∷ [])
    else read_statuses st (split_comma raw)

abbrev pub with_status : List InstanceStatus → List Instance → List Instance
with_status allowed is = keep (λ i. has_status i.status allowed) is

-- `discover`
unfoldable pub discover_handler :
    Strings → Base64 → Text → Query → Service → Reply (Listing Instance)
unfolding read_range allowed_statuses
discover_handler st b service q s = reply_of (do
  range ← read_range b q 200 500
  allowed ← or_refuse (allowed_statuses st q.filter) unprocessable
  passed (listing b (with_status allowed (discover (shard_for s.registry service) service)) range))

-- The test of `listServices`, with the query in lower case.
abbrev pub named_like : Strings → Text → ServiceSummary → Bool
named_like st query x = text_eq query [] || st.contains (st.to_lower x.name) query

-- `listServices`
unfoldable pub list_services_handler :
    Strings → Base64 → Query → Service → Reply (Listing ServiceSummary)
unfolding read_range
list_services_handler st b q s = reply_of (do
  range ← read_range b q 100 500
  let query = st.to_lower (st.trim_space q.filter)
  passed (listing b (keep (named_like st query) (services s.registry.shards)) range))
