-- ===== src/Engine/Corp/Amounts.antt =====
-- The shares and the money of a corporate action of core/eodengine.py.
use ai_agent_stock_trading_s.Prelude.{
  ℕ, zero, suc, ◌+◌, ◌-◌, ◌*◌, ◌<◌, ◌≤◌, ◌≡◌, refl, Bool, true, false, Option, none, some, List, [],
  ◌∷◌, ◌⊎◌, ℤ, pos, pos_part, ◌+ℤ◌, ◌-ℤ◌, ◌≤ℤ◌, +ℤ_parts, -ℤ_parts, arith, ◌==◌, update_where,
  count_where, Bool-cases, inl, inr,
}
use ai_agent_stock_trading_s.Engine.Result.{ok}
use ai_agent_stock_trading_s.Engine.Money.{half_up, amount_of}
use ai_agent_stock_trading_s.Engine.Book.{Book, Lot, dividend_kind, rights_kind}
use ai_agent_stock_trading_s.Engine.Book.Fifo.{lot_total}
use ai_agent_stock_trading_s.Engine.Corp.Rows.{lot_total-mark}
use ai_agent_stock_trading_s.Engine.Corp.{
  Corp, is_row, is_open_for, split_lot, split_book, million, total_of, dividend_tax,
  dividend_tax_rate, net_dividend, corp_dividend, corp_rights, subscribed, answer_of, rights_at,
  paid, paid_book,
}

abbrev pub shares_of : ℕ → ℕ → List Lot → ℕ
shares_of s ex = total_of (is_row s ex) (λ l. l.remaining)

split_lot_lem :
    (ex s ratio : ℕ) (l : Lot)
    → is_row s ex l ≡ true
    → (is_row s ex (split_lot ex s ratio l) ≡ true)
      × ((split_lot ex s ratio l).remaining * million ≤ l.remaining * (million + ratio))
      × (l.remaining * (million + ratio)
          ≤ (split_lot ex s ratio l).remaining * million + (million - 1))
unfolding split_lot
split_lot_lem ex s ratio l h = (ground arith, omega arith, omega arith)

-- `after` is `before` times 1 + ratio, less than one share short for each of `n` lots.
abbrev pub IsScaled : ℕ → ℕ → ℕ → ℕ → Type 0
IsScaled ratio n before after =
    (after * million ≤ before * (million + ratio))
    × (before * (million + ratio) ≤ after * million + n * (million - 1))

split_lots-IsScaled :
    (ex s ratio : ℕ) (ls : List Lot)
    → IsScaled ratio
        (count_where (is_row s ex) ls)
        (shares_of s ex ls)
        (shares_of s ex (update_where (is_row s ex) (split_lot ex s ratio) ls))
split_lots-IsScaled ex s ratio [] = (ground arith, ground arith)
split_lots-IsScaled ex s ratio (l ∷ ls) =
    by_row (split_lots-IsScaled ex s ratio ls) (Bool-cases (is_row s ex l))
  where
    by_row :
        IsScaled ratio
          (count_where (is_row s ex) ls)
          (shares_of s ex ls)
          (shares_of s ex (update_where (is_row s ex) (split_lot ex s ratio) ls))
        → ((is_row s ex l ≡ true) ⊎ (is_row s ex l ≡ false))
        → IsScaled ratio
            (count_where (is_row s ex) (l ∷ ls))
            (shares_of s ex (l ∷ ls))
            (shares_of s ex (update_where (is_row s ex) (split_lot ex s ratio) (l ∷ ls)))
    by_row (low, high) (inl hit) =
        let (still, le, ge) = split_lot_lem ex s ratio l hit in
        rw (hit, still) (omega (arith, low, high, le, ge), omega (arith, low, high, le, ge))
    by_row (low, high) (inr miss) =
        rw (miss, miss) (omega (arith, low, high), omega (arith, low, high))

-- A split multiplies the shares of the lots of before by 1 + ratio and cuts each lot to whole
-- shares: less than one share is lost for each lot.
pub split_book-IsScaled :
    (ex s ratio : ℕ) (b : Book)
    → IsScaled ratio
        (count_where (is_row s ex) b.lots)
        (shares_of s ex b.lots)
        (shares_of s ex (split_book ex s ratio b).lots)
unfolding split_book
split_book-IsScaled ex s ratio b = split_lots-IsScaled ex s ratio b.lots

-- The tax on a lot's dividend is at most the dividend.
dividend_tax_le :
    (ex dps : ℕ) (tax_on : Bool) (l : Lot)
    → dividend_tax ex dps tax_on l ≤ amount_of dps l.remaining
unfolding dividend_tax dividend_tax_rate half_up
dividend_tax_le ex dps false l = omega arith
dividend_tax_le ex dps true l = ground arith

total_of_le :
    (ex s dps : ℕ) (tax_on : Bool) (ls : List Lot)
    → total_of (is_row s ex) (dividend_tax ex dps tax_on) ls
      ≤ total_of (is_row s ex) (λ l. amount_of dps l.remaining) ls
total_of_le ex s dps tax_on [] = ground arith
total_of_le ex s dps tax_on (l ∷ ls) =
    ground (arith, dividend_tax_le ex dps tax_on l, total_of_le ex s dps tax_on ls)

-- What a dividend does to the account.
pub record IsDividend (c c' : Corp) : Type 0 where
  pub pays : c.credit ≤ℤ c'.credit
  pub cash : c'.book.cash ≡ c.book.cash
  pub holdings : c'.book.holdings ≡ c.book.holdings
  pub lots : (t : ℕ) → lot_total t c'.book.lots ≡ lot_total t c.book.lots

-- A dividend, taxed or not, never takes from the day's credit, and changes no holding and no
-- number of shares.
pub corp_dividend-IsDividend :
    (ex s : ℕ) (dps : Option ℤ) (tax_on x : Bool) (c c' : Corp)
    → corp_dividend ex s dps tax_on c ≡ ok (x, c')
    → IsDividend c c'
unfolding corp_dividend net_dividend
corp_dividend-IsDividend ex s none tax_on x c c' e = cc
corp_dividend-IsDividend ex s (some dps) tax_on x c c' e = record {
  pays = ground (
    arith,
    +ℤ_parts c.credit (net_dividend ex s (pos_part dps) tax_on c.book.lots),
    total_of_le ex s (pos_part dps) tax_on c.book.lots,
  );
  cash = ground arith;
  holdings = ground arith;
  lots = λ t. ground (arith, lot_total-mark dividend_kind t s ex c.book.lots);
}

answer_of-paid :
    (qty pay : ℕ) (cash : ℤ) → 0 < qty → pos pay ≤ℤ cash → answer_of true qty pay cash ≡ paid
unfolding answer_of
answer_of-paid qty pay cash h k = ground arith

subscribed-ratio :
    (ex s ratio : ℕ) (ls : List Lot) → 0 < subscribed ex s ratio ls → (ratio == 0) ≡ false
unfolding subscribed
subscribed-ratio ex s zero ls h = ground arith
subscribed-ratio ex s (suc n) ls h = ground arith

overdrawn :
    (cash credit : ℤ) (pay : ℕ)
    → ¬ (pos pay ≤ℤ (cash +ℤ credit))
    → ¬ (pos 0 ≤ℤ (cash +ℤ (credit -ℤ pos pay)))
overdrawn cash credit pay short = ground (
  arith,
  short,
  +ℤ_parts cash credit,
  +ℤ_parts cash (credit -ℤ pos pay),
  -ℤ_parts credit (pos pay),
)

-- A subscription is compared with the stored cash alone: one that this cash covers is paid, and
-- overdraws the account where the day's credit has already used it up.
pub corp_rights_overdraws :
    (ex s ratio price : ℕ) (c : Corp)
    → is_open_for rights_kind ex s c.book.lots ≡ true
    → 0 < subscribed ex s ratio c.book.lots
    → pos (amount_of price (subscribed ex s ratio c.book.lots)) ≤ℤ c.book.cash
    → ¬ (pos (amount_of price (subscribed ex s ratio c.book.lots)) ≤ℤ (c.book.cash +ℤ c.credit))
    → (c' : Corp) × (corp_rights ex s (some (pos ratio)) (some (pos price)) true c ≡ ok (true, c'))
      × (¬ (pos 0 ≤ℤ (c'.book.cash +ℤ c'.credit)))
unfolding corp_rights paid_book
corp_rights_overdraws ex s ratio price c h some_qty covered short = (
  rights_at ex s ratio price true c,
  rw (subscribed-ratio ex s ratio c.book.lots some_qty, h) refl,
  rw (answer_of-paid (subscribed ex s ratio c.book.lots) _ c.book.cash some_qty covered)
      (overdrawn c.book.cash c.credit _ short),
)
