-- ===== src/Engine/Corp.antt =====
-- Corporate actions on the day they take effect: `apply_corp_actions` of core/eodengine.py and the
-- functions it calls, `_corp_split`, `_corp_dividend`, `_corp_rights` and `_corp_delist`.
-- A ratio is in 10⁻⁶, an amount per share and a price in 10⁻⁸ yuan. Of what the functions write, the
-- audit's rows are left out.
pub mod Marks
pub mod Rows
pub mod Keeps
pub mod Holds
pub mod Amounts
use ai_agent_stock_trading_s.Prelude.{
  ℕ, ◌+◌, ◌-◌, ◌*◌, ◌/◌, Bool, true, false, not, ◌&&◌, ◌||◌, Option, none, some, List, [], ◌∷◌,
  ◌++◌, ℤ, pos, pos_part, neg_part, sub_ℕ, ◌+ℤ◌, ◌-ℤ◌, ltb_ℤ, ltb, leb, ◌==◌, if◌then◌else◌, any,
  update_where, delete_where,
}
use ai_agent_stock_trading_s.Engine.Result.{Result, ok, err, gap, engine, ◌>>=◌}
use ai_agent_stock_trading_s.Engine.Money.{cost_unit, half_up, amount_of, fees, FeeSchedule, sell}
use ai_agent_stock_trading_s.Engine.Book.{
  Book, Lot, Holding, Tag, CorpKind, split_kind, dividend_kind, rights_kind, is_lot, is_holding,
  insert_lot,
}
use ai_agent_stock_trading_s.Engine.Book.Fifo.{lot_total}

-- An event by its `kind`. A number that is missing is 0, one that cannot be read is `none`; a
-- delisting without a price settles at zero.
pub data Event : Type 0 where
  split : Option ℤ → Event
  dividend : Option ℤ → Bool → Event
  rights : Option ℤ → Option ℤ → Bool → Event
  delist_zero : Event
  delist_at : Option ℤ → Event
  other_event : Event

-- The account inside the transaction, whose `cash` is still the stored one, and `out`.
pub record Corp : Type 0 where
  pub book : Book
  pub credit : ℤ
  pub applied : ℕ
  pub symbols : List ℕ

abbrev pub million : ℕ
million = 1000000

-- The lots that an event of the day looks at.
abbrev pub is_row : ℕ → ℕ → Lot → Bool
is_row s ex l = (l.symbol == s) && ltb l.buy_date ex && ltb 0 l.remaining

abbrev pub same_kind : CorpKind → CorpKind → Bool
same_kind split_kind split_kind = true
same_kind dividend_kind dividend_kind = true
same_kind rights_kind rights_kind = true
same_kind _ _ = false

abbrev pub same_tag : Tag → Tag → Bool
same_tag a b = same_kind a.kind b.kind && (a.date == b.date) && (a.symbol == b.symbol)

-- `_append_flag`
unfoldable pub append_flag : Tag → List Tag → List Tag
append_flag t ts = if any (same_tag t) ts then ts else ts ++ t ∷ []

abbrev pub tag_of : CorpKind → ℕ → ℕ → Tag
tag_of kind ex s = record { kind = kind; date = ex; symbol = s }

abbrev pub is_marked : CorpKind → ℕ → ℕ → Lot → Bool
is_marked kind ex s l = is_row s ex l && any (same_tag (tag_of kind ex s)) l.flags

abbrev pub mark : CorpKind → ℕ → ℕ → Lot → Lot
mark kind ex s l = record l { flags = append_flag (tag_of kind ex s) l.flags }

-- No row, or a row that carries the event's tag already: nothing is done.
unfoldable pub is_open_for : CorpKind → ℕ → ℕ → List Lot → Bool
is_open_for kind ex s ls = any (is_row s ex) ls && not (any (is_marked kind ex s) ls)

-- `_corp_split`
abbrev pub scale : ℕ → ℕ → ℕ
scale n ratio = n * (million + ratio) / million

unfoldable pub split_lot : ℕ → ℕ → ℕ → Lot → Lot
unfolding half_up append_flag
split_lot ex s ratio l = record l {
  buy_price = half_up (l.buy_price * million) ((million + ratio) * cost_unit) * cost_unit;
  quantity = scale l.quantity ratio;
  remaining = scale l.remaining ratio;
  flags = append_flag (tag_of split_kind ex s) l.flags;
}

unfoldable pub split_holding : ℕ → ℕ → Holding → Holding
unfolding half_up
split_holding total ratio h = record h {
  quantity = total;
  avg_cost = half_up (h.avg_cost * million) (million + ratio);
}

unfoldable pub split_book : ℕ → ℕ → ℕ → Book → Book
unfolding split_lot split_holding
split_book ex s ratio b =
    let lots = update_where (is_row s ex) (split_lot ex s ratio) b.lots in
    record b {
      lots = lots;
      holdings = update_where (is_holding s) (split_holding (lot_total s lots) ratio) b.holdings;
    }

abbrev pub is_negative : ℤ → Bool
is_negative z = ltb 0 (neg_part z)

-- Whether the event was applied, and the state after it.
unfoldable pub corp_split : ℕ → ℕ → Option ℤ → Corp → Result (Bool × Corp)
corp_split ex s none c = err engine
corp_split ex s (some ratio) c =
    if is_negative ratio
    then err engine
    else if is_open_for split_kind ex s c.book.lots
    then ok (true, record c { book = split_book ex s (pos_part ratio) c.book })
    else ok (false, c)

-- `_dividend_tax_rate`, in percent.
unfoldable pub dividend_tax_rate : ℕ → ℕ → ℕ
dividend_tax_rate buy_date ex =
    if leb (ex - buy_date) 30 then 20 else if leb (ex - buy_date) 365 then 10 else 0

-- What a lot is paid, and what of it is withheld.
unfoldable pub dividend_tax : ℕ → ℕ → Bool → Lot → ℕ
unfolding half_up dividend_tax_rate
dividend_tax ex dps tax_on l =
    if tax_on then half_up (amount_of dps l.remaining * dividend_tax_rate l.buy_date ex) 100 else 0

abbrev pub total_of : (Lot → Bool) → (Lot → ℕ) → List Lot → ℕ
total_of test f [] = 0
total_of test f (l ∷ ls) = (if test l then f l else 0) + total_of test f ls

unfoldable pub net_dividend : ℕ → ℕ → ℕ → Bool → List Lot → ℤ
unfolding dividend_tax
net_dividend ex s dps tax_on ls =
    sub_ℕ (total_of (is_row s ex) (λ l. amount_of dps l.remaining) ls)
      (total_of (is_row s ex) (dividend_tax ex dps tax_on) ls)

abbrev pub marked_book : CorpKind → ℕ → ℕ → Book → Book
marked_book kind ex s b = record b { lots = update_where (is_row s ex) (mark kind ex s) b.lots }

-- `_corp_dividend`
unfoldable pub corp_dividend : ℕ → ℕ → Option ℤ → Bool → Corp → Result (Bool × Corp)
unfolding net_dividend
corp_dividend ex s none tax_on c = err engine
corp_dividend ex s (some dps) tax_on c =
    if is_negative dps
    then err engine
    else if is_open_for dividend_kind ex s c.book.lots
    then ok (
      true,
      record c {
        book = marked_book dividend_kind ex s c.book;
        credit = c.credit +ℤ net_dividend ex s (pos_part dps) tax_on c.book.lots;
      },
    )
    else ok (false, c)

-- `_corp_rights`: the shares that may be subscribed, and their price.
unfoldable pub subscribed : ℕ → ℕ → ℕ → List Lot → ℕ
subscribed ex s ratio ls = total_of (is_row s ex) (λ l. l.remaining) ls * ratio / million

abbrev pub rights_lot : ℕ → ℕ → ℕ → ℕ → Lot
rights_lot ex s price qty = record {
  symbol = s;
  buy_trade = none;
  buy_date = ex;
  buy_price = half_up price cost_unit * cost_unit;
  quantity = qty;
  remaining = qty;
  flags = tag_of rights_kind ex s ∷ [];
}

-- The holding's average spreads the payment over old and new shares.
unfoldable pub paid_holding : ℕ → ℕ → Holding → Holding
unfolding half_up
paid_holding pay qty h = record h {
  quantity = h.quantity + qty;
  avg_cost = half_up (h.avg_cost * h.quantity + pay * 100) (h.quantity + qty);
}

unfoldable pub paid_book : ℕ → ℕ → ℕ → ℕ → Book → Book
unfolding paid_holding
paid_book ex s price qty b = record b {
  lots = insert_lot (rights_lot ex s price qty) b.lots;
  holdings = update_where (is_holding s) (paid_holding (amount_of price qty) qty) b.holdings;
}

pub data Answer : Type 0 where
  waived declined_insufficient paid : Answer

-- The subscription is compared with the stored cash.
unfoldable pub answer_of : Bool → ℕ → ℕ → ℤ → Answer
answer_of participate qty pay cash =
    if not participate || qty == 0
    then waived
    else if ltb_ℤ cash (pos pay)
    then declined_insufficient
    else paid

-- The lots that carry the tag are those of before the subscription: the new one is of the day.
abbrev pub answered : ℕ → ℕ → ℕ → ℕ → Answer → Corp → Corp
answered ex s price qty paid c = record c {
  book = marked_book rights_kind ex s (paid_book ex s price qty c.book);
  credit = c.credit -ℤ pos (amount_of price qty);
}
answered ex s price qty _ c = record c { book = marked_book rights_kind ex s c.book }

abbrev pub rights_at : ℕ → ℕ → ℕ → ℕ → Bool → Corp → Corp
rights_at ex s ratio price participate c =
    let qty = subscribed ex s ratio c.book.lots in
    answered ex s price qty (answer_of participate qty (amount_of price qty) c.book.cash) c

unfoldable pub corp_rights : ℕ → ℕ → Option ℤ → Option ℤ → Bool → Corp → Result (Bool × Corp)
unfolding subscribed paid_book answer_of
corp_rights ex s (some ratio) (some price) participate c =
    if pos_part ratio == 0 || is_negative price
    then err engine
    else if is_open_for rights_kind ex s c.book.lots
    then ok (true, rights_at ex s (pos_part ratio) (pos_part price) participate c)
    else ok (false, c)
corp_rights ex s _ _ participate c = err engine

-- `_corp_delist`: the lots and the holding go, and with a price their proceeds are credited.
abbrev pub delisted_book : ℕ → Book → Book
delisted_book s b = record b {
  lots = delete_where (is_lot s) b.lots;
  holdings = delete_where (is_holding s) b.holdings;
}

unfoldable pub proceeds : FeeSchedule → ℕ → ℕ → ℕ → List Lot → ℤ
unfolding fees
proceeds fee ex s price ls =
    let amount = amount_of price (total_of (is_row s ex) (λ l. l.remaining) ls) in
    sub_ℕ amount (fees amount sell fee).total

unfoldable pub delisted : ℕ → ℕ → ℤ → Corp → Bool × Corp
delisted ex s credit c =
    if any (is_row s ex) c.book.lots
    then (true, record c { book = delisted_book s c.book; credit = c.credit +ℤ credit })
    else (false, c)

unfoldable pub corp_delist : FeeSchedule → ℕ → ℕ → Option ℤ → Corp → Result (Bool × Corp)
unfolding delisted proceeds
corp_delist fee ex s none c = err engine
corp_delist fee ex s (some price) c =
    if pos_part price == 0
    then err engine
    else ok (delisted ex s (proceeds fee ex s (pos_part price) c.book.lots) c)

-- `apply_corp_actions`: one event by its kind, then the count of those that did something.
abbrev pub dispatch : FeeSchedule → ℕ → ℕ → Event → Corp → Result (Bool × Corp)
dispatch fee ex s (split ratio) c = corp_split ex s ratio c
dispatch fee ex s (dividend dps tax_on) c = corp_dividend ex s dps tax_on c
dispatch fee ex s (rights ratio price participate) c = corp_rights ex s ratio price participate c
dispatch fee ex s delist_zero c = ok (delisted ex s (pos 0) c)
dispatch fee ex s (delist_at price) c = corp_delist fee ex s price c
dispatch fee ex s other_event c = err gap

abbrev pub counted : ℕ → Bool × Corp → Corp
counted s (false, c) = c
counted s (true, c) = record c {
  applied = c.applied + 1;
  symbols = if any (λ t. t == s) c.symbols then c.symbols else c.symbols ++ s ∷ [];
}

unfoldable pub apply_events : FeeSchedule → ℕ → ℕ → List Event → Corp → Result Corp
apply_events fee ex s [] c = ok c
apply_events fee ex s (e ∷ es) c =
    dispatch fee ex s e c >>= λ r. apply_events fee ex s es (counted s r)

-- The loop over the symbols, which are sorted, with the list of events of each.
unfoldable pub apply_corp_actions : FeeSchedule → ℕ → List (ℕ × List Event) → Corp → Result Corp
unfolding apply_events
apply_corp_actions fee ex [] c = ok c
apply_corp_actions fee ex ((s, es) ∷ rest) c =
    apply_events fee ex s es c >>= λ c'. apply_corp_actions fee ex rest c'

abbrev pub start_corp : Book → Corp
start_corp b = record { book = b; credit = pos 0; applied = 0; symbols = [] }
