-- ===== src/Accounts/Trial.antt =====
-- The trial of a strategy agent, core/accountstore.py: `create_trial_agent`,
-- `provision_validation_account`, `add_trial_session`, `finish_trial`. The archive's counts of trades,
-- holdings and lots and its copy of the account's money are not modelled, and neither is the note
-- that a rejection leaves to the retrospective component after the commit.
use ai_agent_stock_trading_s.Prelude.{
  ℕ, zero, suc, ◌+◌, Bool, true, false, not, ◌&&◌, ◌||◌, Option, none, some, List, [], ◌∷◌, ◌++◌,
  map, leb, ◌==◌, if◌then◌else◌, any, find, select, length, update_where, count_where,
}
use ai_agent_stock_trading_s.Engine.Order.{date_of}
use ai_agent_stock_trading_s.Accounts.{
  Store, Agent, strategy, AgentStatus, running, Account, AccountId, main_of, trial_of,
  validation_of, AccountRole, main, validation, AccountStatus, normal, TrialReplay, ReplayStatus,
  in_progress, done, Session, Settlement, Decision, launch, reject, Archive, OrderRow, Outcome,
  same_account, same_status, is_agent, is_account, has_role, is_on_trial, set_status,
}

abbrev new_account : AccountId → ℕ → AccountRole → AccountStatus → Account
new_account i agent role status = record { id = i; agent_id = agent; role = role; status = status }

-- A primary key that is taken is another error of the call; it leaves the tables too.
unfoldable pub create_trial_agent : ℕ → ℕ → Store → Outcome Agent
create_trial_agent i window s =
    if not (leb 5 window && leb window 20)
    then Outcome.refused
    else if any (is_agent i) s.agents
    then Outcome.refused
    else if any (is_account (main_of i)) s.accounts || any (is_account (trial_of i)) s.accounts
    then Outcome.refused
    else if any (λ r. r.agent_id == i) s.replays
    then Outcome.refused
    else Outcome.done (record { id = i; role = strategy; status = AgentStatus.trial })
        (record s {
          agents = s.agents ++ record { id = i; role = strategy; status = AgentStatus.trial } ∷ [];
          accounts =
              s.accounts
              ++ new_account (main_of i) i main normal
                ∷ new_account (trial_of i) i AccountRole.trial AccountStatus.trial
                ∷ [];
          replays =
              s.replays
              ++ record {
                agent_id = i;
                trial_account_id = trial_of i;
                window_days = window;
                status = in_progress;
              }
                ∷ [];
        })

-- The first number, from 1, whose account id is free; one number more than the fuel is looked at.
unfoldable pub free_number : ℕ → ℕ → ℕ → List Account → ℕ
free_number zero i n accounts = n
free_number (suc fuel) i n accounts =
    let rest = free_number fuel i (n + 1) accounts in
    if any (is_account (validation_of i n)) accounts then rest else n

abbrev pub is_live_main : ℕ → Account → Bool
is_live_main i a =
    has_role i main a
    && not (same_status a.status AccountStatus.archived)
    && not (same_status a.status AccountStatus.halted)

abbrev pub can_validate : AgentStatus → Bool
can_validate AgentStatus.trial = false
can_validate AgentStatus.archived = false
can_validate _ = true

unfoldable pub validation_account : ℕ → Store → Account
validation_account i s =
    new_account (validation_of i (free_number (length s.accounts) i 1 s.accounts)) i validation
      AccountStatus.trial

abbrev pub provision_for : ℕ → Store → Option Agent → Outcome Account
provision_for i s none = Outcome.refused
provision_for i s (some a) =
    if not (can_validate a.status)
    then Outcome.refused
    else if not (any (is_live_main i) s.accounts)
    then Outcome.refused
    else Outcome.done (validation_account i s)
        (record s { accounts = s.accounts ++ validation_account i s ∷ [] })

unfoldable pub provision_validation_account : ℕ → Store → Outcome Account
provision_validation_account i s = provision_for i s (find (is_agent i) s.agents)

abbrev pub is_replay_of : ℕ → TrialReplay → Bool
is_replay_of i r = r.agent_id == i

abbrev pub is_done : ReplayStatus → Bool
is_done done = true
is_done in_progress = false

abbrev pub is_session : ℕ → ℕ → Session → Bool
is_session i day x = (x.agent_id == i) && (x.trade_date == day)

abbrev pub of_agent : ℕ → Session → Bool
of_agent i x = x.agent_id == i

-- `INSERT … ON CONFLICT(agent_id, trade_date) DO NOTHING`
abbrev pub with_session : ℕ → ℕ → List Session → List Session
with_session i day xs =
    if any (is_session i day) xs then xs else xs ++ record { agent_id = i; trade_date = day } ∷ []

abbrev pub finish_replay : TrialReplay → TrialReplay
finish_replay r = record r { status = done }

abbrev pub session_for : ℕ → ℕ → Store → TrialReplay → Agent → Outcome ℕ
session_for i day s r a =
    if is_done r.status
    then Outcome.refused
    else if not (is_on_trial a.status)
    then Outcome.refused
    else (let xs = with_session i day s.sessions in
        let n = count_where (of_agent i) xs in
        Outcome.done n (record s {
          sessions = xs;
          replays =
              if leb r.window_days n
              then update_where (is_replay_of i) finish_replay s.replays
              else s.replays;
        }))

abbrev pub session_of : ℕ → ℕ → Store → Option TrialReplay → Option Agent → Outcome ℕ
session_of i day s (some r) (some a) = session_for i day s r a
session_of i day s _ _ = Outcome.refused

unfoldable pub add_trial_session : ℕ → ℕ → Store → Outcome ℕ
add_trial_session i day s =
    session_of i day s (find (is_replay_of i) s.replays) (find (is_agent i) s.agents)

-- A day of the replay with an order of the account but no settlement.
abbrev pub is_order_of : AccountId → OrderRow → Bool
is_order_of account o = same_account o.account_id account

abbrev pub is_settled : AccountId → ℕ → Settlement → Bool
is_settled account day x = same_account x.account_id account && (x.trade_date == day)

abbrev pub is_abnormal : AccountId → Store → ℕ → Bool
is_abnormal account s day =
    any (λ o. is_order_of account o && (date_of o.created_at == day)) s.orders
    && not (any (is_settled account day) s.settlements)

abbrev pub replay_dates : ℕ → Store → List ℕ
replay_dates i s = map (λ x. x.trade_date) (select (of_agent i) s.sessions)

abbrev pub window_is_done : Option TrialReplay → Bool
window_is_done none = false
window_is_done (some r) = is_done r.status

-- The gates of a launch.
unfoldable pub may_launch : ℕ → AccountId → Store → Bool
may_launch i account s =
    window_is_done (find (is_replay_of i) s.replays)
    && leb 1 (count_where (is_order_of account) s.orders)
    && not (any (is_abnormal account s) (replay_dates i s))

abbrev pub next_status : Decision → AgentStatus
next_status launch = running
next_status reject = AgentStatus.archived

abbrev pub is_launch : Decision → Bool
is_launch launch = true
is_launch reject = false

abbrev archive_of : ℕ → AccountId → Decision → Store → Archive
archive_of i account what s = record {
  agent_id = i;
  account_id = account;
  decision = what;
  replay_dates = replay_dates i s;
  settle_dates =
      map (λ x. x.trade_date) (select (λ x. same_account x.account_id account) s.settlements);
  orders = count_where (is_order_of account) s.orders;
}

abbrev pub archive_trial : ℕ → AccountId → Decision → Store → Outcome Archive
archive_trial i account what s =
    Outcome.done (archive_of i account what s)
      (record (set_status account AccountStatus.archived s) {
        agents = update_where (is_agent i) (λ a. record a { status = next_status what }) s.agents;
        archives = s.archives ++ archive_of i account what s ∷ [];
        replays =
            update_where (λ r. is_replay_of i r && not (is_done r.status)) finish_replay s.replays;
      })

abbrev pub finish_for : ℕ → Decision → Store → Agent → Account → Outcome Archive
finish_for i what s a t =
    if not (is_on_trial a.status)
    then Outcome.refused
    else if not (same_status t.status AccountStatus.trial)
    then Outcome.refused
    else if is_launch what && not (may_launch i t.id s)
    then Outcome.refused
    else if any (λ x. x.agent_id == i) s.archives
    then Outcome.refused
    else archive_trial i t.id what s

abbrev pub finish_of : ℕ → Decision → Store → Option Agent → Option Account → Outcome Archive
finish_of i what s (some a) (some t) = finish_for i what s a t
finish_of i what s _ _ = Outcome.refused

unfoldable pub finish_trial : ℕ → Decision → Store → Outcome Archive
finish_trial i what s =
    finish_of i what s (find (is_agent i) s.agents) (find (has_role i AccountRole.trial) s.accounts)
