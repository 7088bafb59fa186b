-- ===== src/Lib.antt =====
-- A model of the core of the trading simulator, and theorems about it.
--
-- The parts of the program and the files that model them:
-- * core/eodengine.py settles one account for one day. Engine/Money has the amounts, fees and price
--   limits (`_fees`, `_limit_px`), Engine/Order and Engine/Trigger the condition orders and how their
--   triggers are read (`_kind_price`, `_trigger_price`, `_order_rule`, `_time_at`), Engine/Book the
--   account's tables in the transaction and the closures of `settle_account` that fill an order
--   (`sell_fill`, `buy_fill`, `single_cap_ok`, `write_trade`, `register_exit`). Engine/SettleAccount is
--   `settle_account` itself: Engine/Prologue its checks, Engine/Corp the corporate actions
--   (`apply_corp_actions`), then the three tiers of the replay, Engine/Replay for the samples of L0,
--   Engine/Minutes for the minutes of L1 and Engine/Daily for the day's range of L2, with the loops
--   that they share in Engine/Tier and the fills that L1 and L2 write out in Engine/Inline;
--   Engine/CloseOut the rows of the orders and the marks of the trades, and Engine/Settle the
--   valuation, the self-check `_audit_conservation` and the account's figures.
-- * core/settle_day.py calls `settle_account` for each account of a day with what the data service
--   supplies: SettleDay. The choice of the accounts is an argument of it.
-- * The sales of a settlement are tracked for some days afterwards, Tracking (`settle_exits` of
--   core/eodengine.py), and so are the signals that are registered, Tracking/Signals
--   (core/signalstore.py).
-- * core/source_chain.py chooses a source of market data and core/source_health.py keeps its health of
--   a day: Sources and Sources/Health.
-- * core/strategy_versions.py keeps the versions of a strategy and which of them is active: Versions.
-- * core/approval.py has the requests that an agent makes and a user decides: Approval, with the
--   effects of an approval in Approval/Effects.
-- * core/tasks.py has the scheduled tasks: Tasks for the table, Tasks/Runs for the calls that touch
--   other tables. A task that waits for an approval too long closes it (`close_for_interrupt`) and
--   reports to the manager (`record_resume_call`).
-- * core/manager.py decides whether the managing agent is in service: Manager.
-- * core/orderstore.py checks orders (Orders) and places them (Accounts/Placing); what it stores is
--   what Engine/Trigger reads.
-- * core/accountstore.py controls the accounts: Accounts, and Accounts/Trial for the trial of a new
--   agent.
-- The child modules of each part hold the proofs, Tests the theorems at concrete inputs, Prelude the
-- shared helpers.
--
-- How state is modelled: a table is the list of its rows in the order in which the code reads it, a
-- handler takes the tables and returns its result and the new tables, and an exception that rolls a
-- transaction back returns the old ones. A random id, the clock and the handlers of tasks are
-- arguments. Ids, symbols and texts that are only compared or stored are numbers; a symbol is the
-- number that its six digits spell. Instants are seconds, dates are days.
--
-- Numbers: a price is a number of 10⁻⁸ yuan, a quantized amount a number of fen, a cost has 10⁻⁴ yuan,
-- a fee rate 10⁻⁶, a percentage hundredths, the cap of one stock 10⁻⁴, a share of the account
-- hundredths. Decimal arithmetic is exact in the model: the context's 28 digits are more than the
-- amounts of an account need, but a quotient that is not quantized is compared multiplied out. Cash
-- may be negative. A price that is filled is not below zero: where the L1 loop would fill at the price
-- of a trigger below zero, which the order check accepts, the model ends with an error of its own.
--
-- Bounds and fuel: every loop is over a list. The search for a free number of a validation account has
-- as much fuel as there are accounts, and each account takes one number at most.
--
-- Not modelled: the snapshot of positions and the report at the end of a settlement; network, files,
-- language models, reports, web routes; texts of messages and audit details. The lots of a holding that were bought on one day are
-- in the order of their insertion, where the code orders them by a random id.
pub mod Prelude
pub mod Engine
pub mod Approval
pub mod Manager
pub mod Tasks
pub mod Orders
pub mod Accounts
pub mod Tracking
pub mod SettleDay
pub mod Sources
pub mod Versions
mod Tests
