-- ===== src/Engine/Result.antt =====
-- The errors that core/eodengine.py raises, and the chaining of steps that may raise.
use ai_agent_stock_trading_s.Prelude.{◌≡◌, refl, Bool, true, false, Option, none, some}

-- `EngineGapError`, the other `EngineError`s, and `decimal.InvalidOperation`, which no caller catches.
-- `below_zero` is where the model stops: at a fill with a price under zero the code goes on.
pub data Error : Type 0 where
  gap engine decimal below_zero : Error

-- A step that raised, or its value.
pub data Result {ℓ} (V : Type ℓ) : Type ℓ where
  err : Error → Result V
  ok : V → Result V

-- `if test: raise e`
abbrev pub raise_if : Bool → Error → Result (Unit {0})
raise_if false e = ok tt
raise_if true e = err e

-- The value of a lookup that must succeed.
abbrev pub or_raise {ℓ} : {V : Type ℓ} → Option V → Error → Result V
or_raise (some v) e = ok v
or_raise none e = err e

abbrev pub ◌>>=◌ {ℓ κ} : {V : Type ℓ} {W : Type κ} → Result V → (V → Result W) → Result W
err e >>= next = err e
ok v >>= next = next v

abbrev pub ◌>>◌ {κ} : {W : Type κ} → Result (Unit {0}) → Result W → Result W
err e >> next = err e
ok v >> next = next

infixl 5 ◌>>=◌ ◌>>◌
-- A chain that did not raise has a first step that did not.
pub >>=-eq-ok {ℓ κ} :
    {V : Type ℓ} {W : Type κ} (first : Result V) (next : V → Result W) {w : W}
    → (first >>= next) ≡ ok w
    → (v : V) × (first ≡ ok v) × (next v ≡ ok w)
>>=-eq-ok (err e) next h = cc
>>=-eq-ok (ok v) next h = (v, refl, h)

pub >>-eq-ok {κ} :
    {W : Type κ} (first : Result (Unit {0})) (next : Result W) {w : W}
    → (first >> next) ≡ ok w
    → (first ≡ ok tt) × (next ≡ ok w)
>>-eq-ok (err e) next h = cc
>>-eq-ok (ok tt) next h = (refl, h)
