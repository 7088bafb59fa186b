-- ===== src/Accounts/Changes.antt =====
-- What the calls of a trial (core/accountstore.py) change in the tables.
use ai_agent_stock_trading_s.Prelude.{
  ℕ, ◌≤◌, ◌≡◌, refl, true, false, not, ◌&&◌, Option, none, some, [], ◌∷◌, ◌++◌, arith, leb, any,
  find, update_where, count_where, Bool-cases, inl, inr, ◌⊎◌,
}
use ai_agent_stock_trading_s.Accounts.{
  Store, Agent, AgentStatus, Account, TrialReplay, in_progress, Outcome, Decision, strategy,
  trial_of, has_role, AccountRole, is_agent, is_on_trial, Archive,
}
use ai_agent_stock_trading_s.Accounts.Trial.{
  create_trial_agent, add_trial_session, finish_trial, is_done, is_replay_of, of_agent,
  with_session, finish_replay, may_launch, session_of, finish_of, next_status, window_is_done,
  is_launch,
}

-- What a creation, a session and an end of a trial leave.
pub record IsCreation (i window : ℕ) (s t : Store) : Type 0 where
  pub good : 5 ≤ window
  pub fresh : any (is_agent i) s.agents ≡ false
  pub new : any (is_replay_of i) s.replays ≡ false
  pub agents :
      t.agents ≡ s.agents ++ record { id = i; role = strategy; status = AgentStatus.trial } ∷ []
  pub replays :
      t.replays
      ≡ s.replays
        ++ record {
          agent_id = i;
          trial_account_id = trial_of i;
          window_days = window;
          status = in_progress;
        }
          ∷ []
  pub sessions : t.sessions ≡ s.sessions

pub creation_lem :
    (i window : ℕ) (s t : Store) (x : Agent)
    → create_trial_agent i window s ≡ Outcome.done x t
    → IsCreation i window s t
unfolding create_trial_agent
creation_lem i window s t x h = record {
  good = ground arith;
  fresh = ground arith;
  new = ground arith;
  agents = ground arith;
  replays = ground arith;
  sessions = ground arith;
}

pub record IsCounted (i day : ℕ) (s t : Store) : Type 0 where
  pub agents : t.agents ≡ s.agents
  pub sessions : t.sessions ≡ with_session i day s.sessions
  pub replays :
      (t.replays ≡ s.replays)
      ⊎ ((r : TrialReplay) × (find (is_replay_of i) s.replays ≡ some r)
          × (r.window_days ≤ count_where (of_agent i) t.sessions)
          × (t.replays ≡ update_where (is_replay_of i) finish_replay s.replays))

pub session_lem :
    (i day : ℕ) (s t : Store) (n : ℕ)
    → add_trial_session i day s ≡ Outcome.done n t
    → IsCounted i day s t
unfolding add_trial_session
session_lem i day s t n h =
    by_row (find (is_replay_of i) s.replays) (find (is_agent i) s.agents) refl h
  where
    by_row :
        (x : Option TrialReplay) (y : Option Agent)
        → find (is_replay_of i) s.replays ≡ x
        → session_of i day s x y ≡ Outcome.done n t
        → IsCounted i day s t
    by_row none y e h = ground arith
    by_row (some r) none e h = ground arith
    by_row (some r) (some a) e h = elim (Bool-cases (is_done r.status)) [
      | inl over ↦ ground arith
      | inr going ↦ elim (Bool-cases (is_on_trial a.status)) [
        | inr off ↦ ground arith
        | inl on ↦ record {
          agents = ground arith;
          sessions = ground arith;
          replays =
              elim (Bool-cases
                (leb r.window_days (count_where (of_agent i) (with_session i day s.sessions)))) [
                  | inl full ↦ inr (r, e, ground arith, ground arith)
                  | inr short ↦ inl (ground arith)
                ];
        }
      ]
    ]

pub record IsEnd (i : ℕ) (what : Decision) (s t : Store) : Type 0 where
  pub agents :
      t.agents ≡ update_where (is_agent i) (λ a. record a { status = next_status what }) s.agents
  pub sessions : t.sessions ≡ s.sessions
  pub replays :
      t.replays
      ≡ update_where (λ r. is_replay_of i r && not (is_done r.status)) finish_replay s.replays
  pub on_trial : (a : Agent) × (find (is_agent i) s.agents ≡ some a) × (is_on_trial a.status ≡ true)
  pub gates : (is_launch what && not (window_is_done (find (is_replay_of i) s.replays))) ≡ false

pub finish_lem :
    (i : ℕ) (what : Decision) (s t : Store) (x : Archive)
    → finish_trial i what s ≡ Outcome.done x t
    → IsEnd i what s t
unfolding finish_trial may_launch
finish_lem i what s t x h =
    by_row (find (is_agent i) s.agents) (find (has_role i AccountRole.trial) s.accounts) refl h
  where
    by_row :
        (a : Option Agent) (m : Option Account)
        → find (is_agent i) s.agents ≡ a
        → finish_of i what s a m ≡ Outcome.done x t
        → IsEnd i what s t
    by_row none m e h = ground arith
    by_row (some a) none e h = ground arith
    by_row (some a) (some m) e h = elim (Bool-cases (is_on_trial a.status)) [
      | inr off ↦ ground arith
      | inl on ↦ record {
        agents = ground arith;
        sessions = ground arith;
        replays = ground arith;
        on_trial = (a, e, on);
        gates = ground arith;
      }
    ]
