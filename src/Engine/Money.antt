-- ===== src/Engine/Money.antt =====
-- Decimal amounts, fees and price limits of core/eodengine.py.
-- A price, and an amount before it is quantized, is a number of 10⁻⁸ yuan; a quantized amount is a
-- number of fen (`_MONEY`), a cost a number of 10⁻⁴ yuan (`_COST`). A fee rate is in 10⁻⁶.
use ai_agent_stock_trading_s.Prelude.{ℕ, zero, suc, ◌+◌, ◌*◌, ◌/◌, ◌-◌, max, ℤ, pos, negsuc}

abbrev pub fen : ℕ
fen = 1000000

abbrev pub cost_unit : ℕ
cost_unit = 10000

-- `quantize(…, ROUND_HALF_UP)` of n / d to a whole number.
unfoldable pub half_up : ℕ → ℕ → ℕ
half_up n d = (2 * n + d) / (2 * d)

-- ROUND_HALF_UP rounds a negative number's magnitude.
unfoldable pub half_up_ℤ : ℤ → ℕ → ℤ
unfolding half_up
half_up_ℤ (pos n) d = pos (half_up n d)
half_up_ℤ (negsuc n) d = elim (half_up (n + 1) d) [ zero ↦ pos 0 | suc m ↦ negsuc m ]

pub data Side : Type 0 where
  buy sell : Side

-- `FEES`; the amounts of a schedule may be replaced by the caller.
pub record FeeSchedule : Type 0 where
  pub commission_rate : ℕ
  pub commission_min : ℕ
  pub stamp_tax_rate : ℕ
  pub transfer_fee_rate : ℕ

abbrev pub default_fees : FeeSchedule
default_fees = record {
  commission_rate = 250;
  commission_min = 500000000;
  stamp_tax_rate = 500;
  transfer_fee_rate = 10;
}

pub record Fees : Type 0 where
  pub commission : ℕ
  pub stamp_tax : ℕ
  pub transfer_fee : ℕ
  pub total : ℕ

abbrev pub stamp_on : Side → ℕ → ℕ
stamp_on buy stamp = 0
stamp_on sell stamp = stamp

-- `_fees`: each part is rounded by itself, and the total is the rounded sum of the exact parts.
unfoldable pub fees : ℕ → Side → FeeSchedule → Fees
unfolding half_up
fees amount side fee =
    let comm = max fee.commission_min (amount * fee.commission_rate) in
    let stamp = stamp_on side (amount * fee.stamp_tax_rate) in
    let transfer = amount * fee.transfer_fee_rate in
    record {
      commission = half_up comm fen;
      stamp_tax = half_up stamp fen;
      transfer_fee = half_up transfer fen;
      total = half_up (comm + stamp + transfer) fen;
    }

-- `(price * qty).quantize(_MONEY, ROUND_HALF_UP)`
unfoldable pub amount_of : ℕ → ℕ → ℕ
unfolding half_up
amount_of price qty = half_up (price * qty) fen

-- The names of `_BOARD_LIMIT_PCT`, and any other.
pub data Board : Type 0 where
  main gem star bj st_main unknown : Board

unfoldable pub board_limit_pct : Board → ℕ
board_limit_pct main = 10
board_limit_pct gem = 20
board_limit_pct star = 20
board_limit_pct bj = 30
board_limit_pct st_main = 5
board_limit_pct unknown = 10

pub record Limits : Type 0 where
  pub up : ℕ
  pub down : ℕ

-- `_limit_px`: both limits are prices in whole fen.
unfoldable pub limit_px : ℕ → Board → Limits
unfolding half_up board_limit_pct
limit_px prev_close board = record {
  up = half_up (prev_close * (100 + board_limit_pct board)) (100 * fen) * fen;
  down = half_up (prev_close * (100 - board_limit_pct board)) (100 * fen) * fen;
}
