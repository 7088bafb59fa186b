-- ===== src/Approval.antt =====
-- Approval requests, core/approval.py. Texts that are only stored or compared (ids, reasons, notes)
-- are numbers, an instant is a number of seconds, and a table is the list of its rows, oldest first.
-- Messages to the agent's conversation are not modelled: they follow the commit and their failure
-- is ignored.
pub mod Effects
pub mod Table
pub mod Lifecycle
use ai_agent_stock_trading_s.Prelude.{
  ℕ, ◌+◌, ◌-◌, Bool, true, false, not, ◌&&◌, ◌||◌, Option, none, some, List, [], ◌∷◌, ◌++◌, map,
  ltb, leb, ◌==◌, if◌then◌else◌, length, any, find, select, update_where,
}
use Effects.{Payload, Config, EffectResult, failed, applied, ApprovalType, same_type, effect_of}

pub data RequestStatus : Type 0 where
  pending approved rejected expired withdrawn : RequestStatus

pub record Request : Type 0 where
  pub id : ℕ
  pub kind : ApprovalType
  pub agent : ℕ
  pub payload : Payload
  pub content_hash : ℕ
  pub status : RequestStatus
  pub decided_by : Option ℕ
  pub decided_ts : Option ℕ
  pub reason : ℕ
  pub expires_ts : ℕ
  pub close_note : ℕ
  pub result_ref : ℕ
  pub created_ts : ℕ

pub data Action : Type 0 where
  submit decide expire close_interrupt : Action

-- A row of audit_logs.
pub record Audit : Type 0 where
  pub ts : ℕ
  pub actor : ℕ
  pub action : Action
  pub object : ℕ
  pub result : RequestStatus

-- The tables that the module writes; `config` holds what the effects change.
pub record Store : Type 0 where
  pub requests : List Request
  pub config : Config
  pub audits : List Audit

abbrev pub pending_limit : ℕ
pending_limit = 3

abbrev pub default_cooldown : ℕ
default_cooldown = 86400

abbrev pub default_expires : ℕ
default_expires = 86400

-- The texts that the module itself writes: no text, the notes of an expiry, the late decision.
abbrev pub no_text : ℕ
no_text = 0

abbrev pub auto_expired : ℕ
auto_expired = 1

abbrev pub late_decision : ℕ
late_decision = 2

abbrev pub is_pending : RequestStatus → Bool
is_pending pending = true
is_pending _ = false

abbrev pub is_rejected : RequestStatus → Bool
is_rejected rejected = true
is_rejected _ = false

abbrev pub is_decided : RequestStatus → Bool
is_decided approved = true
is_decided rejected = true
is_decided _ = false

abbrev pub or_zero : Option ℕ → ℕ
or_zero none = 0
or_zero (some n) = n

-- `ORDER BY decided_ts DESC LIMIT 1`; a row with no decision sorts last.
abbrev pub later_of : Request → Option Request → Option Request
later_of r none = some r
later_of r (some s) = if ltb (or_zero r.decided_ts) (or_zero s.decided_ts) then some s else some r

unfoldable pub latest : (Request → Bool) → List Request → Option Request
latest p [] = none
latest p (r ∷ rs) = if p r then later_of r (latest p rs) else latest p rs

abbrev pub is_request : ℕ → Request → Bool
is_request i r = r.id == i

abbrev pub answers : ℕ → Request → Bool
answers hash r = (r.content_hash == hash) && is_decided r.status

abbrev pub refused_like : ℕ → ApprovalType → Request → Bool
refused_like agent kind r = (r.agent == agent) && same_type r.kind kind && is_rejected r.status

abbrev pub pending_like : ℕ → ApprovalType → Request → Bool
pending_like agent kind r = (r.agent == agent) && same_type r.kind kind && is_pending r.status

-- The arguments of `submit_approval`; `reason` is `none` if it is blank, the hash is
-- `content_hash_of` of the kind, agent and payload, and `id` the fresh random id.
pub record Submission : Type 0 where
  pub id : ℕ
  pub kind : ApprovalType
  pub agent : ℕ
  pub payload : Payload
  pub hash : ℕ
  pub reason : Option ℕ
  pub requested_by : ℕ
  pub expires_seconds : Option ℕ
  pub cooldown_seconds : Option ℕ
  pub cooldown_exempt : Bool

pub data SubmitResult : Type 0 where
  created hash_hit_approved hash_hit_rejected : Request → SubmitResult
  in_cooldown : ℕ → SubmitResult
  pending_full : List ℕ → SubmitResult
  no_reason id_taken : SubmitResult

abbrev pub or_default : Option ℕ → ℕ → ℕ
or_default none n = n
or_default (some m) n = m

-- The seconds that a cooldown still runs, if it does.
abbrev remaining_since : ℕ → ℕ → Option ℕ → Option ℕ
remaining_since cooldown now none = none
remaining_since cooldown now (some decided) =
    if ltb now (decided + cooldown) then some (decided + cooldown - now) else none

abbrev of_recent : ℕ → ℕ → Option Request → Option ℕ
of_recent cooldown now none = none
of_recent cooldown now (some r) = remaining_since cooldown now r.decided_ts

unfoldable pub cooldown_left : Submission → ℕ → List Request → Option ℕ
cooldown_left q now rows =
    let cooldown = or_default q.cooldown_seconds default_cooldown in
    if q.cooldown_exempt || cooldown == 0
    then none
    else of_recent cooldown now (latest (refused_like q.agent q.kind) rows)

unfoldable pub new_request : Submission → ℕ → ℕ → Request
new_request q reason now = record {
  id = q.id;
  kind = q.kind;
  agent = q.agent;
  payload = q.payload;
  content_hash = q.hash;
  status = pending;
  decided_by = none;
  decided_ts = none;
  reason = reason;
  expires_ts = now + or_default q.expires_seconds default_expires;
  close_note = no_text;
  result_ref = no_text;
  created_ts = now;
}

abbrev pub log : ℕ → ℕ → Action → ℕ → RequestStatus → Store → Store
log now actor action object result s = record s {
  audits =
      s.audits
      ++ record { ts = now; actor = actor; action = action; object = object; result = result } ∷ [];
}

-- The shortcuts after the reason was read, in the order of the code.
abbrev hit_of : Request → SubmitResult
hit_of r = if is_rejected r.status then hash_hit_rejected r else hash_hit_approved r

-- The primary key refuses an id that is taken; the error rolls the transaction back.
abbrev insert_request : Submission → ℕ → ℕ → Store → SubmitResult × Store
insert_request q reason now s =
    let r = new_request q reason now in
    if any (is_request q.id) s.requests then (id_taken, s) else (
      created r,
      log now q.requested_by submit q.id pending (record s { requests = s.requests ++ r ∷ [] }),
    )

abbrev within_quota : Submission → ℕ → ℕ → Store → SubmitResult × Store
within_quota q reason now s =
    let same = select (pending_like q.agent q.kind) s.requests in
    if leb pending_limit (length same)
    then (pending_full (map (λ r. r.id) same), s)
    else insert_request q reason now s

abbrev past_cooldown : Submission → ℕ → ℕ → Store → Option ℕ → SubmitResult × Store
past_cooldown q reason now s (some left) = (in_cooldown left, s)
past_cooldown q reason now s none = within_quota q reason now s

abbrev past_answers : Submission → ℕ → ℕ → Store → Option Request → SubmitResult × Store
past_answers q reason now s (some r) = (hit_of r, s)
past_answers q reason now s none = past_cooldown q reason now s (cooldown_left q now s.requests)

abbrev with_reason : Submission → ℕ → Store → Option ℕ → SubmitResult × Store
with_reason q now s none = (no_reason, s)
with_reason q now s (some reason) = past_answers q reason now s (latest (answers q.hash) s.requests)

unfoldable pub submit_approval : Submission → ℕ → Store → SubmitResult × Store
submit_approval q now s = with_reason q now s q.reason

abbrev update_request : ℕ → (Request → Request) → Store → Store
update_request i f s = record s { requests = update_where (is_request i) f s.requests }

pub data Decision : Type 0 where
  approve reject : Decision

pub data DecideResult : Type 0 where
  decided not_found already overdue effect_failed : DecideResult

-- A decision on a request that is not pending: it is logged and has no effect.
abbrev pub decide_late : ℕ → ℕ → ℕ → Request → Store → DecideResult × Store
decide_late i by now r s = (already, log now by decide i r.status s)

-- A decision that comes after the deadline expires the request.
abbrev pub decide_expired : ℕ → ℕ → ℕ → Store → DecideResult × Store
decide_expired i by now s = (
  overdue,
  log now by decide i expired (
      update_request i
        (λ r. record r {
          status = expired;
          close_note = auto_expired;
          decided_by = some by;
          decided_ts = some now;
          reason = late_decision;
        })
        s),
)

-- The approving transaction; an effect that fails rolls it back. `ref` is the text that the effect
-- returns.
abbrev close_as : RequestStatus → ℕ → ℕ → ℕ → ℕ → Request → Request
close_as status by now reason ref r = record r {
  status = status;
  decided_by = some by;
  decided_ts = some now;
  reason = reason;
  result_ref = ref;
  close_note = no_text;
}

abbrev pub approve_with : ℕ → ℕ → ℕ → ℕ → ℕ → Store → EffectResult → DecideResult × Store
approve_with i by now reason ref s failed = (effect_failed, s)
approve_with i by now reason ref s (applied c) = (
  decided,
  log now by decide i approved
      (update_request i (close_as approved by now reason ref) (record s { config = c })),
)

abbrev pub decide_open : Decision → ℕ → ℕ → ℕ → ℕ → ℕ → Request → Store → DecideResult × Store
decide_open approve i by now reason ref r s =
    approve_with i by now reason ref s (effect_of r.kind r.payload r.agent now s.config)
decide_open reject i by now reason ref r s = (
  decided,
  log now by decide i rejected
      (update_request i (λ x. close_as rejected by now reason x.result_ref x) s),
)

abbrev pub decide_row : Decision → ℕ → ℕ → ℕ → ℕ → ℕ → Store → Option Request → DecideResult × Store
decide_row what i by now reason ref s none = (not_found, s)
decide_row what i by now reason ref s (some r) =
    if not (is_pending r.status)
    then decide_late i by now r s
    else if ltb r.expires_ts now
    then decide_expired i by now s
    else decide_open what i by now reason ref r s

-- `decide_approval`
unfoldable pub decide_approval : Decision → ℕ → ℕ → ℕ → ℕ → ℕ → Store → DecideResult × Store
decide_approval what i by now reason ref s =
    decide_row what i by now reason ref s (find (is_request i) s.requests)

abbrev pub is_open : ℕ → Request → Bool
is_open i r = is_request i r && is_pending r.status

abbrev pub is_overdue : ℕ → Request → Bool
is_overdue now r = is_pending r.status && ltb r.expires_ts now

-- The loop of `expire_overdue`, over the rows that were selected at its start.
abbrev pub expire_row : Request → Request
expire_row r = record r { status = expired; close_note = auto_expired }

unfoldable pub expire_each : ℕ → ℕ → List Request → Store → Store
expire_each scheduler now [] s = s
expire_each scheduler now (r ∷ rs) s = expire_each scheduler now rs (
    log now scheduler expire r.id expired
      (record s { requests = update_where (is_open r.id) expire_row s.requests }))

unfoldable pub expire_overdue : ℕ → ℕ → Store → ℕ × Store
unfolding expire_each
expire_overdue scheduler now s =
    let overdue_rows = select (is_overdue now) s.requests in
    (length overdue_rows, expire_each scheduler now overdue_rows s)

-- `close_for_interrupt`
abbrev pub close_row : ℕ → ℕ → ℕ → ℕ → Store → Option Request → Bool × Store
close_row i note actor now s none = (false, s)
close_row i note actor now s (some r) = if not (is_pending r.status) then (false, s) else (
  true,
  log now actor close_interrupt i expired (record s {
    requests =
        update_where (is_open i) (λ x. record x { status = expired; close_note = note }) s.requests;
  }),
)

unfoldable pub close_for_interrupt : ℕ → ℕ → ℕ → ℕ → Store → Bool × Store
close_for_interrupt i note actor now s =
    close_row i note actor now s (find (is_request i) s.requests)

-- A call of the module, with the instant at which it reads the clock.
pub data Call : Type 0 where
  submits : Submission → ℕ → Call
  decides : Decision → ℕ → ℕ → ℕ → ℕ → ℕ → Call
  expires : ℕ → ℕ → Call
  closes : ℕ → ℕ → ℕ → ℕ → Call

unfoldable pub step : Store → Call → Store
step s (submits q now) = (submit_approval q now s).1
step s (decides what i by now reason ref) = (decide_approval what i by now reason ref s).1
step s (expires scheduler now) = (expire_overdue scheduler now s).1
step s (closes i note actor now) = (close_for_interrupt i note actor now s).1

unfoldable pub run : Store → List Call → Store
run s [] = s
run s (c ∷ cs) = run (step s c) cs
