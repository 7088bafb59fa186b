-- ===== src/Approval/Effects.antt =====
-- The effects of an approved request, core/approval.py: what it writes to the account or to the
-- capability bindings. A failure is a ValueError or a LookupError; the caller rolls back.
use ai_agent_stock_trading_s.Prelude.{
  ℕ, Bool, true, false, not, ◌&&◌, ◌||◌, Option, none, some, List, [], ◌∷◌, ◌++◌, ◌==◌,
  if◌then◌else◌, find, any, update_where, ℤ, pos, ltb_ℤ, leb_ℤ,
}

pub data ApprovalType : Type 0 where
  task granularity capability risk exemption launch : ApprovalType

abbrev pub same_type : ApprovalType → ApprovalType → Bool
same_type task task = true
same_type granularity granularity = true
same_type capability capability = true
same_type risk risk = true
same_type exemption exemption = true
same_type launch launch = true
same_type _ _ = false

pub data Granularity : Type 0 where
  eod_replay intraday_5m intraday_1m : Granularity

abbrev pub same_granularity : Granularity → Granularity → Bool
same_granularity eod_replay eod_replay = true
same_granularity intraday_5m intraday_5m = true
same_granularity intraday_1m intraday_1m = true
same_granularity _ _ = false

-- What the effects read of the JSON payload. A granularity that is not one of the three is `none`;
-- so is a cap that is missing or not a number. The cap is in 10⁻⁸, and `cap_text` is what Python's
-- format `.4f` prints for it, in 10⁻⁴.
pub record Payload : Type 0 where
  pub tokens : List ℕ
  pub target : Option Granularity
  pub cap : Option ℤ
  pub cap_text : ℕ
  pub capability_id : Option ℕ

pub record Change : Type 0 where
  pub from : Granularity
  pub to : Granularity
  pub ts : ℕ

pub record Account : Type 0 where
  pub id : ℕ
  pub buy_exempt : List ℕ
  pub granularity : Granularity
  pub history : List Change
  pub single_stock_cap : ℕ

pub record Capability : Type 0 where
  pub id : ℕ
  pub version : ℕ
  pub is_deprecated : Bool
  pub sandbox_passed : Bool

-- `unbound` tells whether unbound_ts is set.
pub record Binding : Type 0 where
  pub capability : ℕ
  pub version : ℕ
  pub agent : ℕ
  pub unbound : Bool

pub record Config : Type 0 where
  pub accounts : List Account
  pub capabilities : List Capability
  pub bindings : List Binding

pub data EffectResult : Type 0 where
  failed : EffectResult
  applied : Config → EffectResult

abbrev pub is_account : ℕ → Account → Bool
is_account i a = a.id == i

abbrev set_account : ℕ → (Account → Account) → Config → Config
set_account i f c = record c { accounts = update_where (is_account i) f c.accounts }

-- `_effect_exemption`: the tokens join the account's list, each once.
abbrev pub has_token : ℕ → List ℕ → Bool
has_token t ts = any (λ u. u == t) ts

unfoldable pub merge_tokens : List ℕ → List ℕ → List ℕ
merge_tokens merged [] = merged
merge_tokens merged (t ∷ ts) =
    merge_tokens (if has_token t merged then merged else merged ++ t ∷ []) ts

abbrev exempt : List ℕ → ℕ → Config → Option Account → EffectResult
exempt ts i c none = failed
exempt ts i c (some a) =
    applied (set_account i (λ x. record x { buy_exempt = merge_tokens [] (a.buy_exempt ++ ts) }) c)

unfoldable pub effect_exemption : Payload → ℕ → Config → EffectResult
effect_exemption p i c = elim p.tokens [
  | [] ↦ failed
  | t ∷ ts ↦ exempt (t ∷ ts) i c (find (is_account i) c.accounts)
]

-- `_effect_granularity`: a change is entered in the history, the same value is not.
abbrev regrain : Granularity → ℕ → ℕ → Config → Option Account → EffectResult
regrain target i now c none = failed
regrain target i now c (some a) =
    if same_granularity a.granularity target
    then applied c
    else applied (
        set_account i
          (λ x. record x {
            granularity = target;
            history = a.history ++ record { from = a.granularity; to = target; ts = now } ∷ [];
          })
          c)

unfoldable pub effect_granularity : Payload → ℕ → ℕ → Config → EffectResult
effect_granularity p i now c = elim p.target [
  | none ↦ failed
  | some target ↦ regrain target i now c (find (is_account i) c.accounts)
]

-- `_effect_single_stock_cap`: the cap must lie in (0, 1].
abbrev recap : ℕ → ℕ → Config → Option Account → EffectResult
recap text i c none = failed
recap text i c (some a) = applied (set_account i (λ x. record x { single_stock_cap = text }) c)

abbrev pub in_range : ℤ → Bool
in_range z = ltb_ℤ (pos 0) z && leb_ℤ z (pos 100000000)

unfoldable pub effect_single_stock_cap : Payload → ℕ → Config → EffectResult
effect_single_stock_cap p i c = elim p.cap [
  | none ↦ failed
  | some z ↦ if in_range z then recap p.cap_text i c (find (is_account i) c.accounts) else failed
]

-- `_effect_capability`: one live binding at most for a capability, version and agent.
abbrev pub is_bound : Capability → ℕ → Binding → Bool
is_bound k i b =
    (b.capability == k.id) && (b.version == k.version) && (b.agent == i) && not b.unbound

abbrev bind : ℕ → Config → Option Capability → EffectResult
bind i c none = failed
bind i c (some k) =
    if k.is_deprecated || not k.sandbox_passed
    then failed
    else if any (is_bound k i) c.bindings
    then applied c
    else applied (record c {
      bindings =
          c.bindings
          ++ record { capability = k.id; version = k.version; agent = i; unbound = false } ∷ [];
    })

unfoldable pub effect_capability : Payload → ℕ → Config → EffectResult
effect_capability p i c = elim p.capability_id [
  | none ↦ failed
  | some k ↦ bind i c (find (λ x. x.id == k) c.capabilities)
]

-- `_EFFECTS`: the kinds task and launch have none.
unfoldable pub effect_of : ApprovalType → Payload → ℕ → ℕ → Config → EffectResult
effect_of exemption p i now c = effect_exemption p i c
effect_of granularity p i now c = effect_granularity p i now c
effect_of risk p i now c = effect_single_stock_cap p i c
effect_of capability p i now c = effect_capability p i c
effect_of task p i now c = applied c
effect_of launch p i now c = applied c
