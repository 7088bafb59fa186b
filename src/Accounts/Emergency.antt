-- ===== src/Accounts/Emergency.antt =====
-- The orders of the emergency sale of core/orderstore.py, against what the account holds.
use ai_agent_stock_trading_s.Prelude.{
  ℕ, ◌+◌, ◌<◌, ◌≡◌, refl, ap, true, false, some, List, [], ◌∷◌, ◌++◌, arith, ◌==◌, if◌then◌else◌,
  select, Bool-cases, inl, inr, ◌∙◌, eq_true→eq,
}
use ai_agent_stock_trading_s.Engine.Money.{Side}
use ai_agent_stock_trading_s.Engine.Order.{OrderType, Trigger, PriceType}
use ai_agent_stock_trading_s.Orders.{Valid, Checked, validate_order_payload, qty_rule_ok}
use ai_agent_stock_trading_s.Accounts.{
  Store, Agent, Account, AccountId, AccountStatus, OrderRow, HoldingRow, same_status, is_strategy,
  main_of_agent,
}
use ai_agent_stock_trading_s.Accounts.Placing.{
  may_trade, account_and_agent, row_of, placed, place_order, emergency_sell_all, sell_each,
  groups_of, add_group, clear_out_order, is_held_in,
}

-- Some shares are held of every symbol.
abbrev AllPositive : List (ℕ × ℕ) → Type 0
AllPositive [] = Unit
AllPositive (g ∷ gs) = (0 < g.1) × AllPositive gs

add-AllPositive :
    (symbol qty : ℕ) (gs : List (ℕ × ℕ))
    → 0 < qty
    → AllPositive gs
    → AllPositive (add_group symbol qty gs)
unfolding add_group
add-AllPositive symbol qty [] h g = (h, tt)
add-AllPositive symbol qty ((k, q) ∷ gs) h g = ground (arith, add-AllPositive symbol qty gs h g.1)

groups-AllPositive :
    (account : AccountId) (hs : List HoldingRow)
    → AllPositive (groups_of (select (is_held_in account) hs))
unfolding groups_of
groups-AllPositive account [] = tt
groups-AllPositive account (h ∷ hs) = elim (Bool-cases (is_held_in account h)) [
  | inl hit ↦
      let some_held : 0 < h.quantity = ground arith in
      rw hit (
        add-AllPositive h.symbol h.quantity (groups_of (select (is_held_in account) hs)) some_held
          (groups-AllPositive account hs))
  | inr miss ↦ rw miss (groups-AllPositive account hs)
]

abbrev valid_sale : ℕ → ℕ → Valid
valid_sale symbol qty = record {
  symbol = symbol;
  order_type = OrderType.sell_open_board;
  direction = Side.sell;
  qty = qty;
  trigger = Trigger.absent;
  price_type = PriceType.market;
}

clear_out_valid :
    (symbol qty : ℕ)
    → 0 < qty
    → validate_order_payload (clear_out_order symbol qty) ≡ Checked.accepted (valid_sale symbol qty)
unfolding validate_order_payload qty_rule_ok
clear_out_valid symbol qty h = ground arith

-- The market orders that sell all of each symbol, with ids that follow each other.
unfoldable pub sales_of : ℕ → ℕ → AccountId → List (ℕ × ℕ) → List OrderRow
sales_of id now i [] = []
sales_of id now i ((symbol, qty) ∷ gs) =
    row_of id now i false (valid_sale symbol qty) ∷ sales_of (id + 1) now i gs

-- The order is placed: it has a quantity, and a sale is never frozen.
clear_out_placed :
    (id now symbol qty : ℕ) (i : AccountId) (s : Store) (m : Account) (a : Agent)
    → account_and_agent i s ≡ some (m, a)
    → is_strategy a.role ≡ true
    → may_trade a.status m.status Side.sell ≡ true
    → 0 < qty
    → place_order id now i false (clear_out_order symbol qty) s ≡ (
      placed (row_of id now i false (valid_sale symbol qty)),
      record s { orders = s.orders ++ row_of id now i false (valid_sale symbol qty) ∷ [] },
    )
unfolding place_order
clear_out_placed id now symbol qty i s m a e role may h =
    rw (clear_out_valid symbol qty h, e, role, may) refl

append_one {ℓ} : {A : Type ℓ} (xs ys : List A) (x : A) → (xs ++ x ∷ []) ++ ys ≡ xs ++ x ∷ ys
append_one [] ys x = refl
append_one (z ∷ zs) ys x = ap (λ us. z ∷ us) (append_one zs ys x)

append_nil {ℓ} : {A : Type ℓ} (xs : List A) → xs ++ [] ≡ xs
append_nil [] = refl
append_nil (z ∷ zs) = ap (λ us. z ∷ us) (append_nil zs)

same_owner :
    (i : AccountId) (s : Store) (os : List OrderRow)
    → account_and_agent i (record s { orders = os }) ≡ account_and_agent i s
unfolding account_and_agent
same_owner i s os = refl

sell_each_lem :
    (id now : ℕ) (i : AccountId) (gs : List (ℕ × ℕ)) (s : Store) (m : Account) (a : Agent)
    → account_and_agent i s ≡ some (m, a)
    → is_strategy a.role ≡ true
    → may_trade a.status m.status Side.sell ≡ true
    → AllPositive gs
    → sell_each id now i gs s
      ≡ (sales_of id now i gs, record s { orders = s.orders ++ sales_of id now i gs })
unfolding sell_each sales_of
sell_each_lem id now i [] s m a e role may h = rw (append_nil s.orders) refl
sell_each_lem id now i ((symbol, qty) ∷ gs) s m a e role may h =
    let r = row_of id now i false (valid_sale symbol qty) in
    let t : Store = record s { orders = s.orders ++ r ∷ [] } in
    let rest = sell_each_lem (id + 1) now i gs t m a (same_owner i s _ ∙ e) role may h.1 in
    rw
      (
        clear_out_placed id now symbol qty i s m a e role may h.0,
        rest,
        append_one s.orders (sales_of (id + 1) now i gs) r,
      )
      refl

emergency_sell_all_lem :
    (i id now : ℕ) (s : Store) (a b : Agent) (m n : Account)
    → main_of_agent i s ≡ some (a, m)
    → account_and_agent m.id s ≡ some (n, b)
    → is_strategy b.role ≡ true
    → may_trade b.status n.status Side.sell ≡ true
    → same_status m.status AccountStatus.halted ≡ false
    → emergency_sell_all i id now s ≡ (
      some (sales_of id now m.id (groups_of (select (is_held_in m.id) s.holdings)), false),
      record s {
        orders = s.orders ++ sales_of id now m.id (groups_of (select (is_held_in m.id) s.holdings));
      },
    )
unfolding emergency_sell_all
emergency_sell_all_lem i id now s a b m n e owner role may live =
    rw
      (
        e,
        live,
        sell_each_lem id now m.id (groups_of (select (is_held_in m.id) s.holdings)) s n b owner role
            may (groups-AllPositive m.id s.holdings),
      )
      refl

-- How many shares of a symbol the groups, the holdings, the orders have.
unfoldable pub grouped : ℕ → List (ℕ × ℕ) → ℕ
grouped k [] = 0
grouped k (g ∷ gs) = (if g.0 == k then g.1 else 0) + grouped k gs

unfoldable pub held_of : ℕ → List HoldingRow → ℕ
held_of k [] = 0
held_of k (h ∷ hs) = (if h.symbol == k then h.quantity else 0) + held_of k hs

unfoldable pub ordered_of : ℕ → List OrderRow → ℕ
ordered_of k [] = 0
ordered_of k (r ∷ rs) = (if r.symbol == k then r.qty else 0) + ordered_of k rs

grouped-add :
    (k symbol qty : ℕ) (gs : List (ℕ × ℕ))
    → grouped k (add_group symbol qty gs) ≡ (if symbol == k then qty else 0) + grouped k gs
unfolding grouped add_group
grouped-add k symbol qty [] = ground arith
grouped-add k symbol qty ((l, q) ∷ gs) = elim (Bool-cases (symbol == l)) [
  | inl same ↦ rw (same, eq_true→eq symbol l same) (ground arith)
  | inr other ↦ ground (arith, grouped-add k symbol qty gs)
]

grouped-groups_of : (k : ℕ) (hs : List HoldingRow) → grouped k (groups_of hs) ≡ held_of k hs
unfolding grouped held_of groups_of
grouped-groups_of k [] = refl
grouped-groups_of k (h ∷ hs) =
    ground (arith, grouped-add k h.symbol h.quantity (groups_of hs), grouped-groups_of k hs)

ordered-sales_of :
    (k id now : ℕ) (i : AccountId) (gs : List (ℕ × ℕ))
    → ordered_of k (sales_of id now i gs) ≡ grouped k gs
unfolding grouped ordered_of sales_of row_of
ordered-sales_of k id now i [] = refl
ordered-sales_of k id now i ((l, q) ∷ gs) = ground (arith, ordered-sales_of k (id + 1) now i gs)

-- The emergency sale of an agent that may sell and whose main account is not halted places
-- orders, and changes nothing else; of each symbol they sell exactly what the main account holds.
pub sales_cover_holdings :
    (k i id now : ℕ) (s : Store) (a b : Agent) (m n : Account)
    → main_of_agent i s ≡ some (a, m)
    → account_and_agent m.id s ≡ some (n, b)
    → is_strategy b.role ≡ true
    → may_trade b.status n.status Side.sell ≡ true
    → same_status m.status AccountStatus.halted ≡ false
    → (orders : List OrderRow) × ((emergency_sell_all i id now s).0 ≡ some (orders, false))
      × ((emergency_sell_all i id now s).1 ≡ record s { orders = s.orders ++ orders })
      × (ordered_of k orders ≡ held_of k (select (is_held_in m.id) s.holdings))
sales_cover_holdings k i id now s a b m n e owner role may live =
    let gs = groups_of (select (is_held_in m.id) s.holdings) in
    let all = emergency_sell_all_lem i id now s a b m n e owner role may live in
    (
      sales_of id now m.id gs,
      ap (λ x. x.0) all,
      ap (λ x. x.1) all,
      ordered-sales_of k id now m.id gs ∙ grouped-groups_of k (select (is_held_in m.id) s.holdings),
    )
