-- ===== src/Tests/Requests.antt =====
-- Two requests of one agent and what becomes of them (core/approval.py).
use ai_agent_stock_trading_s.Prelude.{
  ℕ, ◌≤◌, refl, false, none, some, List, [], ◌∷◌, arith, count_where,
}
use ai_agent_stock_trading_s.Approval.Effects.{exemption, Payload, Granularity}
use ai_agent_stock_trading_s.Approval.{
  Store, Submission, Call, submits, decides, expires, run, approve, reject, pending_like,
  pending_limit, new_request,
}
use ai_agent_stock_trading_s.Approval.Table.{Advances, HasKeys}
use ai_agent_stock_trading_s.Approval.Lifecycle.{run-Advances, run-quota}

abbrev payload : Payload
payload = record {
  tokens = 1 ∷ 2 ∷ [];
  target = none;
  cap = none;
  cap_text = 0;
  capability_id = none;
}

abbrev submission : ℕ → ℕ → Submission
submission id hash = record {
  id = id;
  kind = exemption;
  agent = 7;
  payload = payload;
  hash = hash;
  reason = some 9;
  requested_by = 7;
  expires_seconds = none;
  cooldown_seconds = none;
  cooldown_exempt = false;
}

-- One request is pending already.
abbrev start : Store
start = record {
  requests = new_request (submission 1 100) 9 0 ∷ [];
  config = record {
    accounts =
        record {
          id = 7;
          buy_exempt = [];
          granularity = Granularity.eod_replay;
          history = [];
          single_stock_cap = 3000;
        }
        ∷ [];
    capabilities = [];
    bindings = [];
  };
  audits = [];
}

abbrev calls : List Call
calls =
    submits (submission 2 101) 10
    ∷ decides approve 1 3 20 9 4
    ∷ decides reject 1 3 30 9 4
    ∷ expires 5 200000
    ∷ []

start-HasKeys : HasKeys start.requests
start-HasKeys = (refl, tt)

run-Advances_example :
    Advances start.requests (run start calls).requests × HasKeys (run start calls).requests
run-Advances_example = run-Advances start calls start-HasKeys

run-quota_example :
    count_where (pending_like 7 exemption) (run start calls).requests ≤ pending_limit
unfolding new_request
run-quota_example = run-quota start calls 7 exemption start-HasKeys (ground arith)
