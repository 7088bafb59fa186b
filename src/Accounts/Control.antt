-- ===== src/Accounts/Control.antt =====
-- What the direct control of core/accountstore.py means for the orders of core/orderstore.py.
use ai_agent_stock_trading_s.Prelude.{
  ℕ, ◌≡◌, refl, subst, ap, Bool, true, false, ◌&&◌, Option, none, some, List, [], ◌∷◌, ◌++◌, arith,
  any, find, update_where, inl, inr, Bool-cases, eq_true→eq,
}
use ai_agent_stock_trading_s.Engine.Money.{Side}
use ai_agent_stock_trading_s.Orders.{Payload, Valid, Checked, validate_order_payload, qty_rule_ok}
use ai_agent_stock_trading_s.Orders.Accepted.{IsSound, validate-IsSound}
use ai_agent_stock_trading_s.Accounts.{
  Store, Agent, AgentStatus, Account, AccountId, AccountStatus, OrderRow, is_strategy, is_agent,
  is_account, is_frozen, main_of_agent, done, set_status, ControlOp, pause_buy, halt, resume,
  target_of, control_agent,
}
use ai_agent_stock_trading_s.Accounts.Placing.{
  may_trade, account_and_agent, with_agent, and_agent, row_of, placed, place_order, place_checked,
  place_valid, is_buy,
}

-- What is on record of an order that was placed.
pub record IsAllowed (s : Store) (account : AccountId) (r : OrderRow) (m : Account) (a : Agent)
    : Type 0 where
  pub belongs : account_and_agent account s ≡ some (m, a)
  pub trades : is_strategy a.role ≡ true
  pub may : may_trade a.status m.status r.direction ≡ true
  pub unfrozen : (is_buy r.direction && any (is_frozen a.id r.symbol) s.frozen) ≡ false
  pub quantity : qty_rule_ok r.symbol r.qty r.direction ≡ true

place_valid_gates :
    (id now : ℕ) (account : AccountId) (l0 : Bool) (v : Valid) (s t : Store) (r : OrderRow)
    (x : Option (Account × Agent))
    → IsSound v
    → account_and_agent account s ≡ x
    → place_valid id now account l0 v s x ≡ (placed r, t)
    → (t ≡ record s { orders = s.orders ++ r ∷ [] })
      × ((m : Account) × (a : Agent) × IsAllowed s account r m a)
unfolding row_of
place_valid_gates id now account l0 v s t r none sound e h = ground arith
place_valid_gates id now account l0 v s t r (some (m, a)) sound e h = (
  ground arith,
  (
    m,
    a,
    record {
      belongs = e;
      trades = ground arith;
      may = ground arith;
      unfrozen = ground arith;
      quantity = ground (arith, sound.quantity);
    },
  ),
)

-- An order that is placed is the only change of the tables, and it passed every gate: the account
-- belongs to a strategy agent whose status and the account's allow the direction, a purchase is
-- not of a security frozen for the agent, and the quantity obeys the board's rule.
pub place_order_gates :
    (id now : ℕ) (account : AccountId) (l0 : Bool) (p : Payload) (s t : Store) (r : OrderRow)
    → place_order id now account l0 p s ≡ (placed r, t)
    → (t ≡ record s { orders = s.orders ++ r ∷ [] })
      × ((m : Account) × (a : Agent) × IsAllowed s account r m a)
unfolding place_order
place_order_gates id now account l0 p s t r h = by_check (validate_order_payload p) refl h
  where
    by_check :
        (c : Checked Valid)
        → validate_order_payload p ≡ c
        → place_checked id now account l0 s c ≡ (placed r, t)
        → (t ≡ record s { orders = s.orders ++ r ∷ [] })
          × ((m : Account) × (a : Agent) × IsAllowed s account r m a)
    by_check Checked.refused e h = ground arith
    by_check Checked.crashed e h = ground arith
    by_check (Checked.accepted v) e h =
        place_valid_gates id now account l0 v s t r (account_and_agent account s)
          (validate-IsSound p v e) refl h

some_eq {ℓ} : {A : Type ℓ} (x y : A) → some x ≡ some y → x ≡ y
some_eq x y h = ap (λ o. elim o [ none ↦ x | some z ↦ z ]) h

find_holds {ℓ} : {A : Type ℓ} (p : A → Bool) (xs : List A) (x : A) → find p xs ≡ some x → p x ≡ true
find_holds p [] x h = ground arith
find_holds p (y ∷ ys) x h = elim (Bool-cases (p y)) [
  | inl hit ↦ rw (some_eq y x (rw hit at h)) at hit
  | inr miss ↦ find_holds p ys x (rw miss at h)
]

pub account_and_agent_lem :
    (i : AccountId) (s : Store) (m : Account) (a : Agent)
    → account_and_agent i s ≡ some (m, a)
    → (find (is_account i) s.accounts ≡ some m) × (a.id ≡ m.agent_id)
unfolding account_and_agent
account_and_agent_lem i s m a h = by_row (find (is_account i) s.accounts) refl h
  where
    by_agent :
        (n : Account) (b : Option Agent)
        → find (is_agent n.agent_id) s.agents ≡ b
        → and_agent n b ≡ some (m, a)
        → (n ≡ m) × (a.id ≡ m.agent_id)
    by_agent n none e h = ground arith
    by_agent n (some c) e h =
        ground (arith, eq_true→eq c.id n.agent_id (find_holds (is_agent n.agent_id) s.agents c e))

    by_row :
        (x : Option Account)
        → find (is_account i) s.accounts ≡ x
        → with_agent s x ≡ some (m, a)
        → (find (is_account i) s.accounts ≡ some m) × (a.id ≡ m.agent_id)
    by_row none e h = ground arith
    by_row (some n) e h = ground (arith, by_agent n (find (is_agent n.agent_id) s.agents) refl h)

-- The account that a key finds after an update by the key is an updated one.
found_status :
    (i : AccountId) (status : AccountStatus) (ms : List Account) (m : Account)
    → find (is_account i) (update_where (is_account i) (λ a. record a { status = status }) ms)
      ≡ some m
    → m.status ≡ status
found_status i status [] m h = ground arith
found_status i status (n ∷ ns) m h = elim (Bool-cases (is_account i n)) [
  | inl hit ↦ ground arith
  | inr miss ↦ found_status i status ns m (rw (miss, miss) at h)
]

-- The orders that a control of the account keeps out.
abbrev pub blocks : ControlOp → Side → Bool
blocks halt side = true
blocks pause_buy side = is_buy side
blocks resume side = false

blocked_status :
    (op : ControlOp) (a : AgentStatus) (side : Side)
    → may_trade a (target_of op) side ≡ true
    → blocks op side ≡ false
unfolding may_trade
blocked_status op a side h = ground arith

main_found :
    (i : ℕ) (op : ControlOp) (s t : Store) (x : AccountStatus × AccountStatus) (a : Agent)
    (m : Account)
    → main_of_agent i s ≡ some (a, m)
    → control_agent i op s ≡ done x t
    → t ≡ set_status m.id (target_of op) s
unfolding control_agent
main_found i op s t x a m e h = ground (arith, rw e at h)

-- Once a control of the agent has succeeded, no order that it blocks is placed on the main
-- account: none after a halt, no purchase after a pause of purchases.
pub control_agent-blocks :
    (i id now : ℕ) (op : ControlOp) (l0 : Bool) (p : Payload) (s t u : Store)
    (x : AccountStatus × AccountStatus) (a : Agent) (m : Account) (r : OrderRow)
    → main_of_agent i s ≡ some (a, m)
    → control_agent i op s ≡ done x t
    → place_order id now m.id l0 p t ≡ (placed r, u)
    → blocks op r.direction ≡ false
control_agent-blocks i id now op l0 p s t u x a m r e h g =
    with_gates (place_order_gates id now m.id l0 p t u r g).1
  where
    with_gates :
        ((n : Account) × (b : Agent) × IsAllowed t m.id r n b) → blocks op r.direction ≡ false
    with_gates (n, b, k) =
        let found = (account_and_agent_lem m.id t n b k.belongs).0 in
        let same : t ≡ set_status m.id (target_of op) s = main_found i op s t x a m e h in
        let status : n.status ≡ target_of op =
          found_status m.id (target_of op) s.accounts n
            (subst (λ y. find (is_account m.id) y.accounts ≡ some n) same found) in
        blocked_status op b.status r.direction
          (subst (λ y. may_trade b.status y r.direction ≡ true) status k.may)
