-- ===== src/Tracking/Signals.antt =====
-- The registered signals and their returns, `register` and `settle_due` of core/signalstore.py.
-- The reference price and the latest close are in fen, a close of the market in 10⁻⁸ yuan, a return
-- in hundredths of a percent.
pub mod Due
use ai_agent_stock_trading_s.Prelude.{
  ℕ, suc, ◌+◌, ◌*◌, Bool, true, false, ◌&&◌, ◌||◌, Option, none, some, List, [], ◌∷◌, ◌++◌, ℤ,
  sub_ℕ, ltb, ◌==◌, if◌then◌else◌,
}
use ai_agent_stock_trading_s.Engine.Money.{fen, half_up, half_up_ℤ}
use ai_agent_stock_trading_s.Tracking.{is_new}

pub data SigType : Type 0 where
  candidate buy sell pitfall_intercept : SigType

-- A row of signal_registry; `fwd_end_date` is absent while it is on its way.
pub record SignalRow : Type 0 where
  pub sig_type : SigType
  pub symbol : ℕ
  pub reg_date : ℕ
  pub ref_price : ℕ
  pub last_close : ℕ
  pub sessions_done : ℕ
  pub last_seen : Option ℕ
  pub fwd_return : Option ℤ
  pub fwd_end_date : Option ℕ
  pub is_stale : Bool

abbrev price_of : Option ℕ → ℕ
price_of none = 0
price_of (some p) = half_up p fen

-- `register`
unfoldable pub register : SigType → ℕ → ℕ → Option ℕ → List SignalRow → List SignalRow
unfolding half_up
register kind s date ref rows =
    rows
    ++ record {
      sig_type = kind;
      symbol = s;
      reg_date = date;
      ref_price = price_of ref;
      last_close = price_of ref;
      sessions_done = 0;
      last_seen = none;
      fwd_return = none;
      fwd_end_date = none;
      is_stale = false;
    }
      ∷ []

-- The reference in 10⁻⁸ yuan, and the row with the one that is stored: a missing one is taken from
-- the base prices.
abbrev pub based : Option ℕ → SignalRow → ℕ × SignalRow
based none r = (r.ref_price * fen, r)
based (some base) r =
    if r.ref_price == 0
    then (base, record r { ref_price = half_up base fen })
    else (r.ref_price * fen, r)

abbrev pub has_close : Option ℕ → ℕ → Bool
has_close none last = ltb 0 last
has_close (some c) last = true

abbrev pub noted : Option ℕ → SignalRow → SignalRow
noted none r = r
noted (some c) r = record r { last_close = half_up c fen }

abbrev pub end_value : Option ℕ → ℕ → ℕ × Bool
end_value none last = (last * fen, true)
end_value (some c) last = (c, false)

abbrev pub closed_at : ℕ → ℕ → ℕ × Bool → SignalRow → SignalRow
closed_at date ref (price, stale) r = record r {
  fwd_return = some (half_up_ℤ (sub_ℕ (price * 10000) (ref * 10000)) ref);
  fwd_end_date = some date;
  is_stale = r.is_stale || stale;
}

abbrev pub signal_seen : ℕ → Option ℕ → SignalRow → SignalRow
signal_seen date close r =
    noted close (record r { sessions_done = suc r.sessions_done; last_seen = some date })

abbrev pub closed_or_wait : ℕ → Option ℕ → ℕ → ℕ → SignalRow → SignalRow
closed_or_wait date close days ref r =
    if ltb (suc r.sessions_done) days
    then signal_seen date close r
    else closed_at date ref (end_value close r.last_close) (signal_seen date close r)

-- The body of the loop; the latest close is read from the row as it was.
unfoldable pub move_signal : ℕ → Option ℕ → ℕ → ℕ → SignalRow → SignalRow
unfolding half_up half_up_ℤ
move_signal date close days ref r =
    if ltb 0 ref && is_new r.last_seen date && has_close close r.last_close
    then closed_or_wait date close days ref r
    else r

abbrev move_based : ℕ → Option ℕ → ℕ → ℕ × SignalRow → SignalRow
move_based date close days (ref, r) = move_signal date close days ref r

abbrev pub is_open_row : ℕ → Option ℕ → ℕ → Bool
is_open_row reg_date none date = ltb reg_date date
is_open_row reg_date (some end) date = false

unfoldable pub settle_signal : ℕ → (ℕ → Option ℕ) → (ℕ → Option ℕ) → ℕ → SignalRow → SignalRow
unfolding move_signal half_up
settle_signal date closes bases days r =
    if is_open_row r.reg_date r.fwd_end_date date
    then move_based date (closes r.symbol) days (based (bases r.symbol) r)
    else r

unfoldable pub settle_due :
    ℕ → (ℕ → Option ℕ) → (ℕ → Option ℕ) → ℕ → List SignalRow → List SignalRow
unfolding settle_signal
settle_due date closes bases days [] = []
settle_due date closes bases days (r ∷ rs) =
    settle_signal date closes bases days r ∷ settle_due date closes bases days rs
