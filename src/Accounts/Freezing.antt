-- ===== src/Accounts/Freezing.antt =====
-- What the freezing of a security (core/accountstore.py) means for the orders of core/orderstore.py.
use ai_agent_stock_trading_s.Prelude.{
  ℕ, ◌≡◌, refl, Bool, true, false, ◌&&◌, some, List, [], ◌∷◌, ◌++◌, arith, ◌==◌, if◌then◌else◌, any,
  find, update_where, delete_where, count_where, Bool-cases, inl, inr, eq_refl, eq_true→eq,
}
use ai_agent_stock_trading_s.Orders.{Payload}
use ai_agent_stock_trading_s.Accounts.{
  Store, Agent, Account, AccountId, OrderRow, cancelled, Frozen, is_frozen, main_of_agent, done,
  freeze_security, unfreeze_security, is_open_buy, freeze_main, is_account,
}
use ai_agent_stock_trading_s.Accounts.Placing.{place_order, placed, is_buy}
use ai_agent_stock_trading_s.Accounts.Control.{IsAllowed, place_order_gates, account_and_agent_lem}

any-append_last :
    (p : Frozen → Bool) (x : Frozen) (xs : List Frozen)
    → any p (xs ++ x ∷ []) ≡ (if any p xs then true else p x)
any-append_last p x [] = ground arith
any-append_last p x (y ∷ ys) = ground (arith, any-append_last p x ys)

-- A cancelled order is open no more.
none_open :
    (account : AccountId) (symbol : ℕ) (os : List OrderRow)
    → any
        (is_open_buy account symbol)
        (update_where (is_open_buy account symbol) (λ o. record o { status = cancelled }) os)
      ≡ false
none_open account symbol [] = refl
none_open account symbol (o ∷ os) = ground (arith, none_open account symbol os)

-- What a freeze leaves, of a symbol that was not frozen.
pub record IsFreeze (i symbol n : ℕ) (m : Account) (s t : Store) : Type 0 where
  pub free : any (is_frozen i symbol) s.frozen ≡ false
  pub frozen :
      t.frozen ≡ s.frozen ++ record { agent_id = i; account_id = m.id; symbol = symbol } ∷ []
  pub orders : any (is_open_buy m.id symbol) t.orders ≡ false
  pub counted : n ≡ count_where (is_open_buy m.id symbol) s.orders
  pub accounts : t.accounts ≡ s.accounts

freeze_security-IsFreeze :
    (i symbol n : ℕ) (s t : Store) (a : Agent) (m : Account)
    → main_of_agent i s ≡ some (a, m)
    → freeze_security i (some symbol) s ≡ done n t
    → IsFreeze i symbol n m s t
unfolding freeze_security
freeze_security-IsFreeze i symbol n s t a m e h = by_free (rw e at h)
  where
    by_free : freeze_main i symbol s (some (a, m)) ≡ done n t → IsFreeze i symbol n m s t
    by_free h = record {
      free = ground arith;
      frozen = ground arith;
      orders = ground (arith, none_open m.id symbol s.orders);
      counted = ground arith;
      accounts = ground arith;
    }

-- Once a security is frozen for an agent, no order that buys it is placed on any account of the
-- agent, and no open purchase of it is left on the main account.
pub freeze_blocks :
    (i symbol n id now : ℕ) (l0 : Bool) (p : Payload) (s t u : Store) (a : Agent) (m k : Account)
    (r : OrderRow)
    → main_of_agent i s ≡ some (a, m)
    → freeze_security i (some symbol) s ≡ done n t
    → find (is_account k.id) t.accounts ≡ some k
    → k.agent_id ≡ i
    → place_order id now k.id l0 p t ≡ (placed r, u)
    → ((is_buy r.direction && r.symbol == symbol) ≡ false)
      × (any (is_open_buy m.id symbol) t.orders ≡ false)
freeze_blocks i symbol n id now l0 p s t u a m k r e h f own g =
    (with_gates (place_order_gates id now k.id l0 p t u r g).1, frozen.orders)
  where
    frozen : IsFreeze i symbol n m s t
    frozen = freeze_security-IsFreeze i symbol n s t a m e h

    with_gates :
        ((l : Account) × (b : Agent) × IsAllowed t k.id r l b)
        → (is_buy r.direction && r.symbol == symbol) ≡ false
    with_gates (l, b, gates) =
        let (found, agent) = account_and_agent_lem k.id t l b gates.belongs in
        let here : l.agent_id ≡ i = ground arith in
        elim (Bool-cases (r.symbol == symbol)) [
          | inr other ↦ ground arith
          | inl same ↦
              let is : any (is_frozen b.id r.symbol) t.frozen ≡ true = ground (
                arith,
                frozen.frozen,
                eq_true→eq r.symbol symbol same,
                eq_refl i,
                eq_refl symbol,
                any-append_last (is_frozen i symbol)
                    (record { agent_id = i; account_id = m.id; symbol = symbol }) s.frozen,
              ) in
              ground (arith, gates.unfrozen)
        ]

delete_none : (p : Frozen → Bool) (xs : List Frozen) → any p xs ≡ false → delete_where p xs ≡ xs
delete_none p [] h = refl
delete_none p (x ∷ xs) h = ground (arith, delete_none p xs)

delete_last :
    (p : Frozen → Bool) (x : Frozen) (xs : List Frozen)
    → any p xs ≡ false
    → p x ≡ true
    → (delete_where p (xs ++ x ∷ []) ≡ xs) × (count_where p (xs ++ x ∷ []) ≡ 1)
delete_last p x [] h g = ground arith
delete_last p x (y ∷ ys) h g = ground (arith, delete_last p x ys)

-- To unfreeze a security after a freeze of it that succeeded removes the one record of the freeze
-- and changes nothing else.
pub unfreeze-freeze :
    (i symbol n : ℕ) (s t : Store) (a : Agent) (m : Account)
    → main_of_agent i s ≡ some (a, m)
    → freeze_security i (some symbol) s ≡ done n t
    → unfreeze_security i symbol t ≡ done 1 (record t { frozen = s.frozen })
unfolding unfreeze_security
unfreeze-freeze i symbol n s t a m e h =
    let k = freeze_security-IsFreeze i symbol n s t a m e h in
    let x : Frozen = record { agent_id = i; account_id = m.id; symbol = symbol } in
    let hit : is_frozen i symbol x ≡ true = ground (arith, eq_refl i, eq_refl symbol) in
    let (rest, one) = delete_last (is_frozen i symbol) x s.frozen k.free hit in
    rw (k.frozen, one, rest) refl
