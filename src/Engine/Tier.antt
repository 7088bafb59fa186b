-- ===== src/Engine/Tier.antt =====
-- The loops of `settle_account` in core/eodengine.py that the three tiers of a replay share: over the
-- symbols and over the active orders at one of them, with the orders' `runtime`.
pub mod Keeps
use ai_agent_stock_trading_s.Prelude.{
  ℕ, suc, ◌+◌, Bool, true, false, not, ◌&&◌, Option, none, some, List, [], ◌∷◌, ltb, ◌==◌,
  if◌then◌else◌,
}
use ai_agent_stock_trading_s.Engine.Result.{Result, ok, ◌>>=◌}
use ai_agent_stock_trading_s.Engine.Order.{Order, Status, active}
use ai_agent_stock_trading_s.Engine.Trigger.{Plan}
use ai_agent_stock_trading_s.Engine.Book.{Book, Outcome, done, insufficient}

-- `runtime[oid]["final"]`
pub data Final : Type 0 where
  waiting filled invalid : Final

-- One order at one symbol of a tier: `ins` counts the events of this loop alone.
pub record Run : Type 0 where
  pub book : Book
  pub final : Final
  pub ins : ℕ
  pub plan : Plan
  pub pinned : Bool

-- The effect of a fill on the order's run; the flag ends the loop over the samples.
abbrev pub after_fill : Run → Outcome × Book → Result (Run × Bool)
after_fill r (done, b) = ok (record r { book = b; final = filled }, true)
after_fill r (insufficient, b) = ok (record r { book = b; ins = suc r.ins }, false)

abbrev pub start_run : Book → Plan → Run
start_run b p = record { book = b; final = waiting; ins = 0; plan = p; pinned = false }

-- An active order with its `runtime`; `frozen` if the circuit breaker froze it today.
pub record Entry : Type 0 where
  pub order : Order
  pub ins : ℕ
  pub cct : ℕ
  pub final : Final
  pub frozen : Bool

abbrev pub is_active : Status → Bool
is_active active = true
is_active _ = false

abbrev pub replays : ℕ → Entry → Bool
replays s e = (e.order.symbol == s) && is_active e.order.status && not e.frozen

-- What the loop leaves in `runtime`, which an earlier tier may have written to.
abbrev pub later_final : Final → Final → Final
later_final old waiting = old
later_final old new = new

abbrev pub with_run : Entry → Run → Entry
with_run e r = record e { ins = e.ins + r.ins; final = later_final e.final r.final }

-- The loop over the orders at one symbol of a tier: `run` replays an order against the tier's data
-- of the symbol.
unfoldable pub replay_symbol :
    {A : Type 0}
    → (A → Order → Book → Result Run)
    → ℕ
    → A
    → List Entry
    → Book
    → Result (List Entry × Book)
replay_symbol run s x [] b = ok ([], b)
replay_symbol run s x (e ∷ es) b = elim (replays s e) [
  | false ↦ (replay_symbol run s x es b >>= λ r. ok (e ∷ r.0, r.1))
  | true ↦
      (run x e.order b >>= λ r.
      (replay_symbol run s x es r.book >>= λ rest. ok (with_run e r ∷ rest.0, rest.1)))
]

-- The loop over the symbols; one of which the tier has no data is passed over.
abbrev pub series_or :
    {A : Type 0}
    → (A → Order → Book → Result Run)
    → ℕ
    → Option A
    → List Entry
    → Book
    → Result (List Entry × Book)
series_or run s none es b = ok (es, b)
series_or run s (some x) es b = replay_symbol run s x es b

unfoldable pub replay_tier :
    {A : Type 0}
    → (A → Order → Book → Result Run)
    → (ℕ → Option A)
    → List ℕ
    → List Entry
    → Book
    → Result (List Entry × Book)
replay_tier run series [] es b = ok (es, b)
replay_tier run series (s ∷ ss) es b =
    series_or run s (series s) es b >>= λ r. replay_tier run series ss r.0 r.1

-- `sorted({o["symbol"] for o in active})`
unfoldable pub insert_symbol : ℕ → List ℕ → List ℕ
insert_symbol s [] = s ∷ []
insert_symbol s (t ∷ ts) =
    if s == t then t ∷ ts else if ltb s t then s ∷ t ∷ ts else t ∷ insert_symbol s ts

unfoldable pub symbols_of : List Entry → List ℕ
unfolding insert_symbol
symbols_of [] = []
symbols_of (e ∷ es) = insert_symbol e.order.symbol (symbols_of es)
