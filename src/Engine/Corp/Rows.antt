-- ===== src/Engine/Corp/Rows.antt =====
-- The tables of lots and holdings under the statements of a corporate action of core/eodengine.py.
use ai_agent_stock_trading_s.Prelude.{
  ℕ, ◌<◌, ◌≡◌, refl, true, false, List, [], ◌∷◌, arith, if◌then◌else◌, ◌==◌, any, find, Option,
  none, some, update_where,
}
use ai_agent_stock_trading_s.Engine.Book.{Lot, Holding, CorpKind, is_holding, held_qty, quantity_of}
use ai_agent_stock_trading_s.Engine.Book.Fifo.{lot_total}
use ai_agent_stock_trading_s.Engine.Corp.{is_row, mark, split_lot}

-- A row has shares.
pub lot_total-pos : (s ex : ℕ) (ls : List Lot) → any (is_row s ex) ls ≡ true → 0 < lot_total s ls
lot_total-pos s ex [] h = ground arith
lot_total-pos s ex (l ∷ ls) h = ground (arith, lot_total-pos s ex ls)

pub lot_total-mark :
    (kind : CorpKind) (t s ex : ℕ) (ls : List Lot)
    → lot_total t (update_where (is_row s ex) (mark kind ex s) ls) ≡ lot_total t ls
lot_total-mark kind t s ex [] = refl
lot_total-mark kind t s ex (l ∷ ls) = ground (arith, lot_total-mark kind t s ex ls)

pub lot_total-split_ne :
    (t s ex ratio : ℕ) (ls : List Lot)
    → (t == s) ≡ false
    → lot_total t (update_where (is_row s ex) (split_lot ex s ratio) ls) ≡ lot_total t ls
unfolding split_lot
lot_total-split_ne t s ex ratio [] h = refl
lot_total-split_ne t s ex ratio (l ∷ ls) h = ground (arith, lot_total-split_ne t s ex ratio ls h)

abbrev mapped : (Holding → Holding) → Option Holding → Option Holding
mapped f none = none
mapped f (some h) = some (f h)

find-update :
    (t s : ℕ) (f : Holding → Holding) (hs : List Holding)
    → ((h : Holding) → (f h).symbol ≡ h.symbol)
    → find (is_holding t) (update_where (is_holding s) f hs)
      ≡ (if t == s then mapped f (find (is_holding s) hs) else find (is_holding t) hs)
find-update t s f [] same = ground arith
find-update t s f (h ∷ hs) same = ground (arith, same h, find-update t s f hs same)

-- A new quantity and a new average for a symbol that is held.
pub held_qty-update :
    (t s : ℕ) (f : Holding → Holding) (g : ℕ → ℕ) (hs : List Holding)
    → ((h : Holding) → (f h).symbol ≡ h.symbol)
    → ((h : Holding) → (f h).quantity ≡ g h.quantity)
    → 0 < held_qty s hs
    → held_qty t (update_where (is_holding s) f hs)
      ≡ (if t == s then g (held_qty s hs) else held_qty t hs)
unfolding held_qty
held_qty-update t s f g hs same new held =
    rw (find-update t s f hs same) (by_row (find (is_holding s) hs) held)
  where
    by_row :
        (m : Option Holding)
        → 0 < quantity_of m
        → quantity_of (if t == s then mapped f m else find (is_holding t) hs)
          ≡ (if t == s then g (quantity_of m) else quantity_of (find (is_holding t) hs))
    by_row none h = ground arith
    by_row (some x) h = ground (arith, new x)
