-- ===== src/Review/Store.antt =====
-- The tables and the bucket that reviews touch: `PostgresStore` and `MinioStore`. A call to either
-- service may fail: `faults` holds, call by call, whether the next one does, and a call that fails
-- changes nothing. Object names are kept as their three parts.
use decision_center.Base.{
  Bool, true, false, Option, none, some, String, List, [], ◌∷◌, ℕ, str_eq, if◌then◌else◌,
}
pub use decision_center.Base.Effect.{Result, done, raised, Effect, ◌>>◌, resume}
unfoldable pub use decision_center.Base.Effect.{pure, throw, gets, modify, attempt, ◌>>=◌}
use decision_center.Base.Dict.{Key, string_key, pair_key, Dict, lookup, insert}
use decision_center.Rbac.Reviewer.{Action}

-- The values of `audit_log.review_state`.
pub data ReviewState : Type 0 where
  staging needs_review approved rejected revision_requested final cancelled : ReviewState

-- The columns of `audit_log` that the reviews read or write.
pub record AuditRow : Type 0 where
  pub request_id : String
  pub user_id_hash : String
  pub quality_gate_status : Option String
  pub review_state : Option ReviewState

-- A row of `review_decisions`.
pub record Decision : Type 0 where
  pub decided_request : String
  pub reviewer_id_hash : String
  pub action : Action
  pub reason : Option String
  pub comment : Option String

pub data EventType : Type 0 where
  admin_override_approved admin_override_rejected : EventType

pub record AdminEvent : Type 0 where
  pub event_type : EventType
  pub actor_hash : String
  pub subject : String

-- `{prefix}/{request_id}/{filename}`
abbrev pub ObjectName : Type 0
ObjectName = String × (String × String)

instance abbrev pub object_key : Key ObjectName
object_key = pair_key string_key (pair_key string_key string_key)

pub record World : Type 0 where
  pub audits : List AuditRow
  -- newest first
  pub decisions : List Decision
  pub events : List AdminEvent
  pub bucket : Dict ObjectName String
  pub faults : List Bool

-- `http code` is an HTTPException, `backend` the error of a failed service call.
pub data Exc : Type 0 where
  http_error : ℕ → Exc
  file_exists backend : Exc

abbrev pub Outcome : Type 0 → Type 0
Outcome A = Result Exc A

abbrev pub Exec : Type 0 → Type 0
Exec A = Effect World Exc A

abbrev pub next_fault : List Bool → World → Outcome Unit × World
next_fault [] w = (done tt, w)
next_fault (true ∷ rest) w = (raised backend, record w { faults = rest })
next_fault (false ∷ rest) w = (done tt, record w { faults = rest })

-- One call to a service.
unfoldable pub external : Exec Unit
external w = next_fault w.faults w

-- SELECT * FROM audit_log WHERE request_id = $1
unfoldable pub find_audit : String → List AuditRow → Option AuditRow
find_audit rid [] = none
find_audit rid (row ∷ rows) =
    let rest = find_audit rid rows in if str_eq row.request_id rid then some row else rest

-- UPDATE audit_log SET review_state = $1 WHERE request_id = $2
unfoldable pub set_review_state : String → ReviewState → List AuditRow → List AuditRow
set_review_state rid s [] = []
set_review_state rid s (row ∷ rows) =
    (if str_eq row.request_id rid then record row { review_state = some s } else row)
    ∷ set_review_state rid s rows

-- SELECT * FROM review_decisions WHERE request_id = $1, newest first
unfoldable pub decisions_of : String → List Decision → List Decision
decisions_of rid [] = []
decisions_of rid (d ∷ ds) =
    let rest = decisions_of rid ds in if str_eq d.decided_request rid then d ∷ rest else rest

unfoldable pub init_schema : Exec Unit
init_schema = external

unfoldable pub get_audit : String → Exec (Option AuditRow)
get_audit rid = do external; gets (λ w. find_audit rid w.audits)

unfoldable pub get_review_decisions : String → Exec (List Decision)
get_review_decisions rid = do external; gets (λ w. decisions_of rid w.decisions)

unfoldable pub insert_review_decision : Decision → Exec Unit
insert_review_decision d = do external; modify (λ w. record w { decisions = d ∷ w.decisions })

unfoldable pub update_review_state : String → ReviewState → Exec Unit
update_review_state rid s = do
  external
  modify (λ w. record w { audits = set_review_state rid s w.audits })

unfoldable pub insert_admin_event : AdminEvent → Exec Unit
insert_admin_event e = do external; modify (λ w. record w { events = e ∷ w.events })

abbrev pub is_some : {A : Type 0} → Option A → Bool
is_some none = false
is_some (some _) = true

-- `MinioStore.object_exists`
unfoldable pub object_exists : ObjectName → Exec Bool
object_exists name = do external; gets (λ w. is_some (lookup name w.bucket))

unfoldable pub put_object : ObjectName → String → Exec Unit
put_object name body = modify (λ w. record w { bucket = insert name body w.bucket })

-- The server's copy: it fails where the source is missing.
unfoldable pub write_copy : ObjectName → Option String → Exec Unit
write_copy dest none = throw backend
write_copy dest (some body) = put_object dest body

unfoldable pub copy_object : ObjectName → ObjectName → Exec Unit
copy_object dest source = do
  external
  found ← gets (λ w. lookup source w.bucket)
  write_copy dest found

-- `MinioStore.copy_to_final`; the first call is `_ensure_bucket`.
unfoldable pub copy_to_final : String → String → Exec ObjectName
copy_to_final rid filename = do
  external
  exists ← object_exists ("final", (rid, filename))
  if exists then throw file_exists else do
    copy_object ("final", (rid, filename)) ("staging", (rid, filename))
    pure ("final", (rid, filename))

-- `MinioStore.put_json`, and `put_bytes` alike
unfoldable pub put_json : String → String → String → String → Exec ObjectName
put_json prefix rid filename body = do
  external
  external
  put_object (prefix, (rid, filename)) body
  pure (prefix, (rid, filename))
