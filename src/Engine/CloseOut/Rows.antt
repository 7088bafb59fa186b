-- ===== src/Engine/CloseOut/Rows.antt =====
-- The rows of the orders after a day, core/eodengine.py.
use ai_agent_stock_trading_s.Prelude.{
  ℕ, ◌≡◌, refl, Bool, true, false, ◌&&◌, some, not, if◌then◌else◌, arith,
}
use ai_agent_stock_trading_s.Engine.Order.{Order, Status}
use ai_agent_stock_trading_s.Engine.Tier.{Entry, Final, waiting, filled, is_active}
use ai_agent_stock_trading_s.Engine.CloseOut.{
  close_order, close_waiting, is_today, is_today_validity,
}

abbrev is_waiting : Final → Bool
is_waiting waiting = true
is_waiting _ = false

abbrev is_fill : Final → Bool
is_fill filled = true
is_fill _ = false

abbrev is_filled : Status → Bool
is_filled Status.filled = true
is_filled _ = false

-- An order for today alone, of the day or without a date.
abbrev ends_today : ℕ → Order → Bool
ends_today date o = is_today_validity o.validity && is_today date o.created_at

-- The row of an order after a day: it stays active exactly if it was and the replay left it waiting
-- and it does not end with the day; it is filled exactly if the replay filled it, or it was filled
-- before; a row that is closed has the day as its date, another one the date of before; and what the
-- order asks for is the same.
pub record IsClosed (date : ℕ) (e : Entry) (after : Order) : Type 0 where
  pub stays :
      is_active after.status
      ≡ (is_active e.order.status && is_waiting e.final && not (ends_today date e.order))
  pub fills :
      is_filled after.status
      ≡ (if is_active e.order.status then is_fill e.final else is_filled e.order.status)
  pub dated : after.settled_on ≡ (if is_active after.status then e.order.settled_on else some date)
  pub same_order :
      (after.id ≡ e.order.id) × (after.symbol ≡ e.order.symbol) × (after.qty ≡ e.order.qty)

-- After the day the row of each order of the replay tells the outcome: active exactly if it was,
-- the replay left it waiting and it does not end with the day; filled exactly if the replay
-- filled it, or it was not active and came filled; dated on the day if it is not active and dated
-- as before otherwise. Its id, symbol and quantity stay.
pub close_order-IsClosed : (date : ℕ) (e : Entry) → IsClosed date e (close_order date e)
unfolding close_order
close_order-IsClosed date e = record {
  stays = ground arith;
  fills = ground arith;
  dated = ground arith;
  same_order = ground arith;
}

-- An order of an earlier day that waits on loses the events of the day at which cash or shares
-- were short: whatever was counted, its row keeps the count of before.
pub close_order_forgets :
    (date : ℕ) (e : Entry)
    → is_active e.order.status ≡ true
    → e.final ≡ waiting
    → is_today date e.order.created_at ≡ false
    → (close_order date e).insufficient_events ≡ e.order.insufficient_events
unfolding close_order
close_order_forgets date e a w t = rw (a, w, t) (by_validity (is_today_validity e.order.validity))
  where
    by_validity :
        (v : Bool)
        → (close_waiting v false date e.ins
            (record e.order { circuit_break_events = e.cct })).insufficient_events
          ≡ e.order.insufficient_events
    by_validity true = refl
    by_validity false = refl
