-- ===== src/Versions.antt =====
-- The versions of an agent's strategy, core/strategy_versions.py: `checkpoint`, `activate`, `rollback`.
-- A version's id is its place in the table, where the code draws a random one. The contents of a
-- version, the events for the agent's memory, the audit's rows and the alert are left out.
pub mod Rows
pub mod Active
pub mod Histories
use ai_agent_stock_trading_s.Prelude.{
  ℕ, ◌+◌, Bool, true, false, not, ◌&&◌, ◌||◌, Option, none, some, List, [], ◌∷◌, ◌++◌, ltb, leb,
  ◌==◌, if◌then◌else◌, length, find, any, update_where,
}

pub data VersionStatus : Type 0 where
  draft validated active rolled_back : VersionStatus

pub record Version : Type 0 where
  pub id : ℕ
  pub agent : ℕ
  pub version_no : ℕ
  pub parent : Option ℕ
  pub status : VersionStatus
  pub created_ts : ℕ
  pub validated_on : Option ℕ
  pub failure_reason : Option ℕ
  pub rolled_back_to : Option ℕ

pub record Store : Type 0 where
  pub agents : List ℕ
  pub versions : List Version

-- `ValueError` and `LookupError`, the two refusals of `rollback`, or what was done.
pub data Outcome : Type 0 where
  value_error lookup_error no_active no_validated_target done : Outcome

abbrev pub is_version : ℕ → ℕ → Version → Bool
is_version a n v = (v.agent == a) && (v.version_no == n)

abbrev pub is_active_status : VersionStatus → Bool
is_active_status active = true
is_active_status _ = false

abbrev pub is_validated_status : VersionStatus → Bool
is_validated_status validated = true
is_validated_status _ = false

abbrev pub may_activate : VersionStatus → Bool
may_activate draft = true
may_activate validated = true
may_activate _ = false

abbrev pub is_active_of : ℕ → Version → Bool
is_active_of a v = (v.agent == a) && is_active_status v.status

abbrev pub is_agent : ℕ → List ℕ → Bool
is_agent a = any (λ b. b == a)

abbrev pub number_of : Option Version → Option ℕ
number_of none = none
number_of (some v) = some v.version_no

abbrev pub has_version : Option Version → Bool
has_version none = false
has_version (some v) = true

-- The draft of a checkpoint; its parent is the active version.
abbrev pub draft_of : ℕ → ℕ → ℕ → List Version → Version
draft_of a n now vs = record {
  id = length vs;
  agent = a;
  version_no = n;
  parent = number_of (find (is_active_of a) vs);
  status = draft;
  created_ts = now;
  validated_on = none;
  failure_reason = none;
  rolled_back_to = none;
}

-- `checkpoint`: the flags tell whether the creator is known and the snapshot not empty.
unfoldable pub checkpoint : Bool → Bool → ℕ → ℕ → ℕ → Store → Outcome × Store
checkpoint known filled a n now s =
    if not known || not filled
    then (value_error, s)
    else if not (is_agent a s.agents)
    then (lookup_error, s)
    else if has_version (find (is_version a n) s.versions)
    then (value_error, s)
    else (done, record s { versions = s.versions ++ draft_of a n now s.versions ∷ [] })

-- `activate`: the active version becomes a candidate to go back to, and the new one takes its place.
abbrev pub is_other_active : ℕ → ℕ → Version → Bool
is_other_active a n v = is_active_of a v && not (v.version_no == n)

abbrev pub promote : ℕ → Version → Version
promote now v = record v { status = active; validated_on = some now }

abbrev pub retire : Version → Version
retire v = record v { status = validated }

abbrev pub activated : ℕ → ℕ → ℕ → List Version → List Version
activated a n now vs =
    update_where (is_version a n) (promote now) (update_where (is_other_active a n) retire vs)

abbrev pub activate_row : ℕ → ℕ → ℕ → Store → Option Version → Outcome × Store
activate_row a n now s none = (lookup_error, s)
activate_row a n now s (some v) =
    if is_active_status v.status
    then (done, s)
    else if may_activate v.status
    then (done, record s { versions = activated a n now s.versions })
    else (value_error, s)

unfoldable pub activate : Bool → ℕ → ℕ → ℕ → Store → Outcome × Store
activate known a n now s =
    if not (is_agent a s.agents)
    then (lookup_error, s)
    else if not known
    then (value_error, s)
    else activate_row a n now s (find (is_version a n) s.versions)

-- The candidate of a rollback: the one created last, by id where two were created in one second.
abbrev pub is_later : Version → Version → Bool
is_later v w = ltb w.created_ts v.created_ts || (v.created_ts == w.created_ts) && ltb w.id v.id

abbrev pub later : Version → Option Version → Option Version
later v none = some v
later v (some w) = if is_later v w then some v else some w

unfoldable pub target_of : ℕ → ℕ → List Version → Option Version
target_of a n [] = none
target_of a n (v ∷ vs) =
    let rest = target_of a n vs in
    if (v.agent == a) && is_validated_status v.status && not (v.version_no == n)
    then later v rest
    else rest

abbrev pub has_id : ℕ → Version → Bool
has_id i v = v.id == i

abbrev pub fail_with : ℕ → ℕ → Version → Version
fail_with reason n v = record v {
  status = rolled_back;
  failure_reason = some reason;
  rolled_back_to = some n;
}

abbrev pub swapped : ℕ → ℕ → Version → Version → List Version → List Version
swapped reason now v w vs =
    update_where (has_id w.id) (promote now)
      (update_where (has_id v.id) (fail_with reason w.version_no) vs)

abbrev pub rollback_to : ℕ → ℕ → Store → Version → Option Version → Outcome × Store
rollback_to reason now s v none = (no_validated_target, s)
rollback_to reason now s v (some w) =
    (done, record s { versions = swapped reason now v w s.versions })

abbrev pub rollback_from : ℕ → ℕ → ℕ → Store → Option Version → Outcome × Store
rollback_from a reason now s none = (no_active, s)
rollback_from a reason now s (some v) =
    rollback_to reason now s v (target_of a v.version_no s.versions)

-- `rollback`: the reason is absent where it is blank.
unfoldable pub rollback : Option ℕ → Bool → ℕ → ℕ → Store → Outcome × Store
unfolding target_of
rollback none known a now s = (value_error, s)
rollback (some reason) known a now s =
    if not known
    then (value_error, s)
    else if not (is_agent a s.agents)
    then (lookup_error, s)
    else rollback_from a reason now s (find (is_active_of a) s.versions)

-- A call of the module.
pub data Call : Type 0 where
  checkpointed : Bool → Bool → ℕ → ℕ → ℕ → Call
  activated_by : Bool → ℕ → ℕ → ℕ → Call
  rolled_back_by : Option ℕ → Bool → ℕ → ℕ → Call

unfoldable pub step : Call → Store → Store
unfolding checkpoint activate rollback
step (checkpointed known filled a n now) s = (checkpoint known filled a n now s).1
step (activated_by known a n now) s = (activate known a n now s).1
step (rolled_back_by reason known a now) s = (rollback reason known a now s).1

unfoldable pub run : List Call → Store → Store
unfolding step
run [] s = s
run (c ∷ cs) s = run cs (step c s)
