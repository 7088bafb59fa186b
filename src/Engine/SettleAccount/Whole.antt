-- ===== src/Engine/SettleAccount/Whole.antt =====
-- A whole day of one account, `settle_account` of core/eodengine.py.
use ai_agent_stock_trading_s.Prelude.{
  ℕ, ◌≡◌, refl, sym, ◌∙◌, ap, ap₂, ◌+◌, Bool, true, false, some, List, [], ◌∷◌, ℤ, pos, ◌+ℤ◌, arith,
  ◌==◌, any, select, eq_refl, count_where, +ℤ_parts, eq_of_parts, Bool-cases, inl, inr, ◌⊎◌, ltb,
  ◌&&◌,
}
use ai_agent_stock_trading_s.Engine.Result.{ok, engine, >>=-eq-ok, >>-eq-ok, raise_if}
use ai_agent_stock_trading_s.Engine.Money.{Side}
use ai_agent_stock_trading_s.Engine.Book.{Book, Day, Trade, require_close}
use ai_agent_stock_trading_s.Engine.Book.Shares.{IsConsistent}
use ai_agent_stock_trading_s.Engine.Tier.{Entry, is_active, symbols_of}
use ai_agent_stock_trading_s.Engine.Tier.Keeps.{IsKept}
use ai_agent_stock_trading_s.Engine.Replay.{replay_l0}
use ai_agent_stock_trading_s.Engine.Replay.Traded.{is_sale, is_purchase, traded, traded_in}
use ai_agent_stock_trading_s.Engine.Replay.Keeps.{replay_l0-keeps}
use ai_agent_stock_trading_s.Engine.Replay.Invariants.{
  IsBalanced-kept, TakesOldest-kept, TakesOldest, TakesOldest-start,
}
use ai_agent_stock_trading_s.Engine.Minutes.{replay_l1}
use ai_agent_stock_trading_s.Engine.Minutes.Keeps.{replay_l1-keeps}
use ai_agent_stock_trading_s.Engine.Daily.Keeps.{replay_l2-keeps}
use ai_agent_stock_trading_s.Engine.Corp.{Corp, apply_corp_actions, start_corp}
use ai_agent_stock_trading_s.Engine.Corp.Holds.{
  apply_corp_actions-IsConsistent, apply_corp_actions-HasFunds,
}
use ai_agent_stock_trading_s.Engine.Prologue.{
  Feeds, lookup, overlaps, Token, Account, Request, check_account, check_orders, entries_of,
}
use ai_agent_stock_trading_s.Engine.CloseOut.{
  close_orders, align_trades, feed_last_price, aligned, is_plain, is_off,
}
use ai_agent_stock_trading_s.Engine.Settle.{
  Opening, Closing, settle_tail, flow_from, day_flow, equity_of, opening_value, audit_conservation,
  closing_of, nav_of, in_units,
}
use ai_agent_stock_trading_s.Engine.Settle.Conservation.{IsBalanced}
use ai_agent_stock_trading_s.Engine.SettleAccount.{
  replay_tiers, Settlement, already_settled, settled, day_of, opening_of, credited, with_trades,
  finish, settle_open, settle_checked, settle_account, after_settlement,
}

-- What every fill keeps holds after the three tiers.
pub replay_tiers-keeps {ℓ} :
    (d : Day) (P : Book → Type ℓ)
    → IsKept d P
    → (f : Feeds) (ss : List ℕ) (es es' : List Entry) (b b' : Book)
    → replay_tiers d f ss es b ≡ ok (es', b')
    → P b
    → P b'
unfolding replay_tiers
replay_tiers-keeps d P k f ss es es' b b' e p =
    let (r, e0, f0) = >>=-eq-ok (replay_l0 d (λ s. lookup s f.l0) ss es b) _ e in
    let (q, e1, f1) = >>=-eq-ok (replay_l1 d (λ s. lookup s f.l1) ss r.0 r.1) _ f0 in
    replay_l2-keeps d P k (λ s. lookup s f.l2) ss q.0 es' q.1 b' f1
      (replay_l1-keeps d P k (λ s. lookup s f.l1) ss r.0 q.0 r.1 q.1 e1
        (replay_l0-keeps d P k (λ s. lookup s f.l0) ss es r.0 b r.1 e0 p))

-- The marks change no amount.
flow_from-aligned :
    (date close last : ℕ) (t : Trade) (ts : List Trade) (acc : ℤ)
    → flow_from date acc (aligned close last t ∷ ts) ≡ flow_from date acc (t ∷ ts)
unfolding flow_from
flow_from-aligned date close last t ts acc =
    elim (Bool-cases (ltb 0 close && is_plain t.quality && is_off close last)) [
      | inl hit ↦ rw hit
      | inr miss ↦ rw miss
    ]

flow_from-step :
    (date : ℕ) (t : Trade) (ts us : List Trade) (acc : ℤ)
    → ((x : ℤ) → flow_from date x ts ≡ flow_from date x us)
    → flow_from date acc (t ∷ ts) ≡ flow_from date acc (t ∷ us)
unfolding flow_from
flow_from-step date t ts us acc h = h _

flow_from-align :
    (d : Day) (f : Feeds) (ts ts' : List Trade)
    → align_trades d f ts ≡ ok ts'
    → (acc : ℤ) → flow_from d.date acc ts' ≡ flow_from d.date acc ts
unfolding align_trades
flow_from-align d f [] ts' e acc = let same : ts' ≡ [] = cc in rw same
flow_from-align d f (t ∷ ts) ts' e acc =
    by_date (flow_from-align d f ts) (Bool-cases (t.settle_date == d.date))
  where
    by_date :
        ((us : List Trade)
          → align_trades d f ts ≡ ok us
          → (x : ℤ) → flow_from d.date x us ≡ flow_from d.date x ts)
        → ((t.settle_date == d.date) ≡ true) ⊎ ((t.settle_date == d.date) ≡ false)
        → flow_from d.date acc ts' ≡ flow_from d.date acc (t ∷ ts)
    by_date ih (inl hit) =
        let (close, _, e1) = >>=-eq-ok (require_close d t.symbol) _ (rw hit at e) in
        let (last, _, e2) = >>=-eq-ok (feed_last_price d f t.symbol) _ e1 in
        let (us, r, e3) = >>=-eq-ok (align_trades d f ts) _ e2 in
        let same : ts' ≡ aligned close last t ∷ us = cc in
        rw same (
          flow_from-aligned d.date close last t us acc
          ∙ flow_from-step d.date t us ts acc (ih us r))
    by_date ih (inr miss) =
        let (us, r, e3) = >>=-eq-ok (align_trades d f ts) _ (rw miss at e) in
        let same : ts' ≡ t ∷ us = cc in rw same (flow_from-step d.date t us ts acc (ih us r))

settle_tail-cash :
    (d : Day) (start : Opening) (b : Book) (c : Closing)
    → settle_tail d start b ≡ ok c
    → c.cash ≡ b.cash
unfolding settle_tail
settle_tail-cash d start b c e =
    let (equity, _, e1) = >>=-eq-ok (equity_of d (in_units b.cash) b.holdings) _ e in
    let (opening, _, e2) = >>=-eq-ok (opening_value d start.holdings) _ e1 in
    let (_, e3) =
      >>-eq-ok
        (audit_conservation d start.cash b.cash equity start.shares (nav_of equity start.shares)
          start.corp_cash b)
        _ e2 in
    let same : c ≡ closing_of start b.cash equity opening = cc in rw same

-- The marks change no quantity either.
traded-align :
    (p : Side → Bool) (s : ℕ) (d : Day) (f : Feeds) (ts ts' : List Trade)
    → align_trades d f ts ≡ ok ts'
    → traded p s d.date ts' ≡ traded p s d.date ts
unfolding align_trades
traded-align p s d f [] ts' e = let same : ts' ≡ [] = cc in rw same refl
traded-align p s d f (t ∷ ts) ts' e =
    by_date (traded-align p s d f ts) (Bool-cases (t.settle_date == d.date))
  where
    traded_in-aligned :
        (close last : ℕ) → traded_in p s d.date (aligned close last t) ≡ traded_in p s d.date t
    traded_in-aligned close last =
        elim (Bool-cases (ltb 0 close && is_plain t.quality && is_off close last)) [
          | inl hit ↦ rw hit refl
          | inr miss ↦ rw miss refl
        ]

    by_date :
        ((us : List Trade)
          → align_trades d f ts ≡ ok us
          → traded p s d.date us ≡ traded p s d.date ts)
        → ((t.settle_date == d.date) ≡ true) ⊎ ((t.settle_date == d.date) ≡ false)
        → traded p s d.date ts' ≡ traded p s d.date (t ∷ ts)
    by_date ih (inl hit) =
        let (close, _, e1) = >>=-eq-ok (require_close d t.symbol) _ (rw hit at e) in
        let (last, _, e2) = >>=-eq-ok (feed_last_price d f t.symbol) _ e1 in
        let (us, r, e3) = >>=-eq-ok (align_trades d f ts) _ e2 in
        let same : ts' ≡ aligned close last t ∷ us = cc in
        rw same (ap₂ (λ x y. x + y) (traded_in-aligned close last) (ih us r))
    by_date ih (inr miss) =
        let (us, r, e3) = >>=-eq-ok (align_trades d f ts) _ (rw miss at e) in
        let same : ts' ≡ t ∷ us = cc in rw same (ap (λ y. traded_in p s d.date t + y) (ih us r))

-- The orders' rows, the marks and the closing figures leave the lots and the quantities alone.
TakesOldest-align :
    (d : Day) (f : Feeds) (start b : Book) (ts : List Trade)
    → align_trades d f b.trades ≡ ok ts
    → TakesOldest d start b
    → TakesOldest d start (with_trades b ts)
TakesOldest-align d f start b ts e k = record {
  consistent = record { held = k.consistent.held };
  oldest = λ s.
      let (n, count, le, q) = k.oldest s in
      (n, traded-align is_sale s d f b.trades ts e ∙ count, le, q);
  untouched = λ s. rw (traded-align is_purchase s d f b.trades ts e) (k.untouched s);
}

-- What a settlement leaves: holdings that agree with the lots, cash that the opening cash, the
-- corporate actions and the day's trades make, and lots that T+1 and the FIFO rule leave of those
-- after the corporate actions.
pub record IsSettled (d : Day) (a : Account) (x : Settlement) : Type 0 where
  pub balanced : x.closing.cash ≡ a.book.cash +ℤ x.corp.credit +ℤ day_flow d.date x.book.trades
  pub oldest : TakesOldest d x.corp.book x.book

+ℤ_zero : (z : ℤ) → z +ℤ pos 0 ≡ z
+ℤ_zero z = eq_of_parts (z +ℤ pos 0) z (omega (arith, +ℤ_parts z (pos 0)))

IsBalanced-start :
    (date : ℕ) (c : Corp)
    → day_flow date c.book.trades ≡ pos 0
    → IsBalanced date (c.book.cash +ℤ c.credit) (credited c)
IsBalanced-start date c h = record {
  balanced = sym (ap (λ z. c.book.cash +ℤ c.credit +ℤ z) h ∙ +ℤ_zero _);
}

-- The credit touches neither lots nor trades.
credited-TakesOldest :
    (d : Day) (c : Corp) → IsConsistent c.book → TakesOldest d c.book (credited c)
credited-TakesOldest d c k =
    let start = TakesOldest-start d c.book k in
    record {
      consistent = record { held = k.held };
      oldest = start.oldest;
      untouched = start.untouched;
    }

-- The three facts about one book, along the tiers.
finish-IsSettled :
    (d : Day) (r : Request) (a : Account) (corp : Corp) (es : List Entry) (b : Book)
    (x : Settlement)
    → finish d r a corp (es, b) ≡ ok (settled x)
    → corp.book.cash ≡ a.book.cash
    → TakesOldest d corp.book b
    → IsBalanced d.date (corp.book.cash +ℤ corp.credit) b
    → IsSettled d a x
unfolding finish day_flow
finish-IsSettled d r a corp es b x e same_cash k balanced =
    let (trades, t, e1) = >>=-eq-ok (align_trades d r.feeds b.trades) _ e in
    let (closing, c, e2) =
      >>=-eq-ok (settle_tail d (opening_of a corp) (with_trades b trades)) _ e1 in
    let same : x ≡ record {
      closing = closing;
      book = with_trades b trades;
      rows = close_orders d.date es;
      corp = corp;
      blocked = count_where (λ y. y.frozen) es;
    } =
      cc in
    rw same (record {
      balanced =
          settle_tail-cash d (opening_of a corp) (with_trades b trades) closing c
          ∙ balanced.balanced
          ∙ ap (λ z. z +ℤ corp.credit +ℤ flow_from d.date (pos 0) b.trades) same_cash
          ∙ ap (λ z. a.book.cash +ℤ corp.credit +ℤ z)
              (sym (flow_from-align d r.feeds b.trades trades t (pos 0)));
      oldest = TakesOldest-align d r.feeds corp.book b trades t k;
    })

settle_open-IsSettled :
    (d : Day) (r : Request) (a : Account) (exempt : List Token) (x : Settlement)
    → settle_open d r a exempt ≡ ok (settled x)
    → IsConsistent a.book
    → day_flow d.date a.book.trades ≡ pos 0
    → IsSettled d a x
unfolding settle_open
settle_open-IsSettled d r a exempt x e k fresh =
    let (corp, c, e1) =
      >>=-eq-ok (apply_corp_actions d.fee d.date r.events (start_corp a.book)) _ e in
    let (checked, _, e2) =
      >>=-eq-ok (check_orders r.feeds (select (λ o. is_active o.status) a.orders)) _ e1 in
    let es = entries_of r.circuit_freeze exempt r checked in
    let (after, t, e3) =
      >>=-eq-ok (replay_tiers d r.feeds (symbols_of es) es (credited corp)) _ e2 in
    let funds = apply_corp_actions-HasFunds d.fee d.date r.events a.book corp c in
    let kept = apply_corp_actions-IsConsistent d.fee d.date r.events (start_corp a.book) corp c k in
    let start = IsBalanced-start d.date corp (ap (day_flow d.date) funds.trades_same ∙ fresh) in
    finish-IsSettled d r a corp after.0 after.1 x e3 funds.cash_same
      (replay_tiers-keeps d (TakesOldest d corp.book) (TakesOldest-kept d corp.book) r.feeds
        (symbols_of es) es after.0 (credited corp) after.1 t (credited-TakesOldest d corp kept))
      (replay_tiers-keeps d (IsBalanced d.date (corp.book.cash +ℤ corp.credit))
        (IsBalanced-kept d (corp.book.cash +ℤ corp.credit)) r.feeds (symbols_of es) es after.0
        (credited corp) after.1 t start)

settle_checked-IsSettled :
    (d : Day) (r : Request) (a : Account) (exempt : List Token) (cap : ℕ) (x : Settlement)
    → settle_checked d r a (exempt, cap) ≡ ok (settled x)
    → IsConsistent a.book
    → day_flow d.date a.book.trades ≡ pos 0
    → IsSettled d a x
settle_checked-IsSettled d r a exempt cap x e k fresh =
    by_log (Bool-cases (any (λ t. t == d.date) a.settled))
  where
    by_log :
        ((any (λ t. t == d.date) a.settled ≡ true) ⊎ (any (λ t. t == d.date) a.settled ≡ false))
        → IsSettled d a x
    by_log (inl before) = let never : ok already_settled ≡ ok (settled x) = rw before at e in cc
    by_log (inr first) =
        let s = settle_open-IsSettled (day_of d r.feeds cap) r a exempt x (rw first at e) k fresh in
        record {
          balanced = s.balanced;
          oldest = record {
            consistent = s.oldest.consistent;
            oldest = s.oldest.oldest;
            untouched = s.oldest.untouched;
          };
        }

-- A settlement that ends without an error, of an account whose holdings agree with its lots and
-- whose trades of the day, if it has any, net to nothing: whatever the events, the series and the
-- orders, the holdings agree with the lots again; the new cash is the old cash with the credit of
-- the corporate actions and the net amounts of the day's trades; the shares of each symbol that
-- the new trades of the day sold are the oldest of those bought before the day, as the corporate
-- actions left them, and no more than these; and the lots of the day hold what they held after
-- the corporate actions and what was bought.
pub settle_account-IsSettled :
    (d : Day) (r : Request) (a : Account) (x : Settlement)
    → settle_account d r (some a) ≡ ok (settled x)
    → IsConsistent a.book
    → day_flow d.date a.book.trades ≡ pos 0
    → IsSettled d a x
unfolding settle_account
settle_account-IsSettled d r a x e k fresh =
    let (_, e1) = >>-eq-ok (raise_if (overlaps r.feeds) engine) _ e in
    let (checked, _, e2) = >>=-eq-ok (check_account a) _ e1 in
    settle_checked-IsSettled d r a checked.0 checked.1 x e2 k fresh

-- A day that was settled is not settled again, whatever the second call brings, as long as no
-- symbol of its L2 series has another one: the account stays as the first settlement left it.
pub settle_account_again :
    (d d' : Day) (r r' : Request) (a : Account) (x : Settlement)
    → settle_account d r (some a) ≡ ok (settled x)
    → d'.date ≡ d.date
    → overlaps r'.feeds ≡ false
    → settle_account d' r' (some (after_settlement d.date a x)) ≡ ok already_settled
unfolding settle_account check_account
settle_account_again d d' r r' a x e same_day single =
    let (_, e1) = >>-eq-ok (raise_if (overlaps r.feeds) engine) _ e in
    let (checked, c, _) = >>=-eq-ok (check_account a) _ e1 in
    rw (single, c, same_day, eq_refl d.date) refl
