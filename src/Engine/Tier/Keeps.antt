-- ===== src/Engine/Tier/Keeps.antt =====
-- Properties of the book along the loops that the tiers of core/eodengine.py share.
use ai_agent_stock_trading_s.Prelude.{
  ℕ, ◌≤◌, ◌≡◌, refl, Bool, Option, none, some, List, [], ◌∷◌, Bool-cases, inl, inr, pos, ◌≤ℤ◌,
}
use ai_agent_stock_trading_s.Engine.Result.{Result, ok, err, ◌>>=◌}
use ai_agent_stock_trading_s.Engine.Order.{Order}
use ai_agent_stock_trading_s.Engine.Book.{
  Book, Day, Quality, sellable, sold_book, buy_shares, outlay,
}
use ai_agent_stock_trading_s.Engine.Tier.{
  Run, Entry, replay_symbol, series_or, replay_tier, replays, with_run,
}

-- A property of books that a sale within T+1 and a purchase within the cash keep on a day.
pub record IsKept {ℓ} (d : Day) (P : Book → Type ℓ) : Type ℓ where
  pub by_sale :
      (o : Order) (qty price ts : ℕ) (quality : Quality) (register : Bool) (b : Book)
      → qty ≤ sellable o.symbol d.date b.lots
      → P b
      → P (sold_book d o qty price ts quality register b)
  pub by_purchase :
      (o : Order) (qty price ts : ℕ) (quality : Quality) (b : Book)
      → pos (outlay d qty price) ≤ℤ b.cash
      → P b
      → P (buy_shares d o qty price ts quality b)

module _ {ℓ} {A : Type 0} (run : A → Order → Book → Result Run) (P : Book → Type ℓ) where
  abbrev GoodAll : Result (List Entry × Book) → Type ℓ
  GoodAll (ok (_, b)) = P b
  GoodAll (err e) = Unit

  GoodAll-cons :
      (x : Entry) (m : Result (List Entry × Book))
      → GoodAll m
      → GoodAll (m >>= λ r. ok (x ∷ r.0, r.1))
  GoodAll-cons x (ok r) g = g
  GoodAll-cons x (err e) g = tt

  GoodAll-next {κ} :
      {V : Type κ} (m : Result V) (f : V → Result (List Entry × Book))
      → ((r : V) → m ≡ ok r → GoodAll (f r))
      → GoodAll (m >>= f)
  GoodAll-next (ok r) f h = h r refl
  GoodAll-next (err e) f h = tt

  module _
      (keeps : (x : A) (o : Order) (b : Book) (r : Run) → run x o b ≡ ok r → P b → P r.book) where
    replay_symbol-GoodAll :
        (s : ℕ) (x : A) (es : List Entry) (b : Book) → P b → GoodAll (replay_symbol run s x es b)
    unfolding replay_symbol
    replay_symbol-GoodAll s x [] b p = p
    replay_symbol-GoodAll s x (e ∷ es) b p = elim (Bool-cases (replays s e)) [
      | inl hit ↦
          rw (hit, replay_symbol)
            (GoodAll-next (run x e.order b) _ (λ r q.
              GoodAll-cons (with_run e r) _
                (replay_symbol-GoodAll s x es r.book (keeps x e.order b r q p))))
      | inr miss ↦ rw (miss, replay_symbol) (GoodAll-cons e _ (replay_symbol-GoodAll s x es b p))
    ]

    series_or-GoodAll :
        (s : ℕ) (m : Option A) (es : List Entry) (b : Book) → P b → GoodAll (series_or run s m es b)
    series_or-GoodAll s none es b p = p
    series_or-GoodAll s (some x) es b p = replay_symbol-GoodAll s x es b p

    replay_tier-GoodAll :
        (series : ℕ → Option A) (ss : List ℕ) (es : List Entry) (b : Book)
        → P b
        → GoodAll (replay_tier run series ss es b)
    unfolding replay_tier
    replay_tier-GoodAll series [] es b p = p
    replay_tier-GoodAll series (s ∷ ss) es b p =
        GoodAll-next (series_or run s (series s) es b) _ (λ r q.
          replay_tier-GoodAll series ss r.0 r.1 (rw q at (series_or-GoodAll s (series s) es b p)))

    -- What the replay of one order keeps holds after a tier.
    pub replay_tier-keeps :
        (series : ℕ → Option A) (ss : List ℕ) (es es' : List Entry) (b b' : Book)
        → replay_tier run series ss es b ≡ ok (es', b')
        → P b
        → P b'
    replay_tier-keeps series ss es es' b b' e p = rw e at (replay_tier-GoodAll series ss es b p)
