-- ===== src/Versions/Histories.antt =====
-- The versions of a strategy over any calls, core/strategy_versions.py.
use ai_agent_stock_trading_s.Prelude.{
  ℕ, ◌≡◌, refl, Bool, true, false, not, ◌||◌, Option, none, some, List, [], ◌∷◌, if◌then◌else◌,
  find, Bool-cases, inl, inr, ◌⊎◌,
}
use ai_agent_stock_trading_s.Versions.{
  Version, Store, Outcome, is_version, is_active_status, may_activate, is_active_of, is_agent,
  has_version, activated, checkpoint, activate_row, activate, target_of, rollback_to, rollback_from,
  rollback, Call, checkpointed, activated_by, rolled_back_by, step, run,
}
use ai_agent_stock_trading_s.Versions.Active.{
  IsValid, IsKept, checkpoint-IsKept, activated-IsKept, swapped-IsKept,
}

abbrev Keeps : Store → Outcome × Store → Type 0
Keeps s (_, t) = IsKept s.versions t.versions

Keeps-idle : (o : Outcome) (s : Store) → IsValid s.versions → Keeps s (o, s)
Keeps-idle o s k = record { valid = k; stays_active = λ a one. one }

Keeps-if :
    (s : Store) (c : Bool) (m n : Outcome × Store)
    → Keeps s m
    → (c ≡ false → Keeps s n)
    → Keeps s (if c then m else n)
Keeps-if s true m n g h = g
Keeps-if s false m n g h = h refl

checkpoint-Keeps :
    (known filled : Bool) (a n now : ℕ) (s : Store)
    → IsValid s.versions
    → Keeps s (checkpoint known filled a n now s)
unfolding checkpoint
checkpoint-Keeps known filled a n now s k =
    Keeps-if s (not known || not filled) _ _ (Keeps-idle Outcome.value_error s k) (λ _.
      Keeps-if s (not (is_agent a s.agents)) _ _ (Keeps-idle Outcome.lookup_error s k) (λ _.
        Keeps-if s (has_version (find (is_version a n) s.versions)) _ _
          (Keeps-idle Outcome.value_error s k)
          (λ free. checkpoint-IsKept a n now s.versions free k)))

activate_row-Keeps :
    (a n now : ℕ) (s : Store) (m : Option Version)
    → find (is_version a n) s.versions ≡ m
    → IsValid s.versions
    → Keeps s (activate_row a n now s m)
activate_row-Keeps a n now s none f k = Keeps-idle Outcome.lookup_error s k
activate_row-Keeps a n now s (some v) f k =
    Keeps-if s (is_active_status v.status) _ _ (Keeps-idle Outcome.done s k)
      (λ _. by_status (Bool-cases (may_activate v.status)))
  where
    by_status :
        ((may_activate v.status ≡ true) ⊎ (may_activate v.status ≡ false))
        → Keeps s (
            if may_activate v.status
            then (Outcome.done, record s { versions = activated a n now s.versions })
            else (Outcome.value_error, s))
    by_status (inl e) = rw e (activated-IsKept a n now s.versions v f k)
    by_status (inr e) = rw e (Keeps-idle Outcome.value_error s k)

activate-Keeps :
    (known : Bool) (a n now : ℕ) (s : Store)
    → IsValid s.versions
    → Keeps s (activate known a n now s)
unfolding activate
activate-Keeps known a n now s k =
    Keeps-if s (not (is_agent a s.agents)) _ _ (Keeps-idle Outcome.lookup_error s k) (λ _.
      Keeps-if s (not known) _ _ (Keeps-idle Outcome.value_error s k)
        (λ _. activate_row-Keeps a n now s (find (is_version a n) s.versions) refl k))

rollback_to-Keeps :
    (a reason now : ℕ) (s : Store) (v : Version) (m : Option Version)
    → find (is_active_of a) s.versions ≡ some v
    → target_of a v.version_no s.versions ≡ m
    → IsValid s.versions
    → Keeps s (rollback_to reason now s v m)
rollback_to-Keeps a reason now s v none f t k = Keeps-idle Outcome.no_validated_target s k
rollback_to-Keeps a reason now s v (some w) f t k = swapped-IsKept a reason now v w s.versions f t k

rollback_from-Keeps :
    (a reason now : ℕ) (s : Store) (m : Option Version)
    → find (is_active_of a) s.versions ≡ m
    → IsValid s.versions
    → Keeps s (rollback_from a reason now s m)
rollback_from-Keeps a reason now s none f k = Keeps-idle Outcome.no_active s k
rollback_from-Keeps a reason now s (some v) f k =
    rollback_to-Keeps a reason now s v (target_of a v.version_no s.versions) f refl k

rollback-Keeps :
    (reason : Option ℕ) (known : Bool) (a now : ℕ) (s : Store)
    → IsValid s.versions
    → Keeps s (rollback reason known a now s)
unfolding rollback
rollback-Keeps none known a now s k = Keeps-idle Outcome.value_error s k
rollback-Keeps (some reason) known a now s k =
    Keeps-if s (not known) _ _ (Keeps-idle Outcome.value_error s k) (λ _.
      Keeps-if s (not (is_agent a s.agents)) _ _ (Keeps-idle Outcome.lookup_error s k)
        (λ _. rollback_from-Keeps a reason now s (find (is_active_of a) s.versions) refl k))

step-IsKept : (c : Call) (s : Store) → IsValid s.versions → IsKept s.versions (step c s).versions
unfolding step
step-IsKept (checkpointed known filled a n now) s = checkpoint-Keeps known filled a n now s
step-IsKept (activated_by known a n now) s = activate-Keeps known a n now s
step-IsKept (rolled_back_by reason known a now) s = rollback-Keeps reason known a now s

-- Over any checkpoints, activations and rollbacks, from a table where numbers and ids are
-- distinct and each agent has one active version at most: it stays so, and an agent that has an
-- active version is never left without one.
pub run-IsKept :
    (cs : List Call) (s : Store) → IsValid s.versions → IsKept s.versions (run cs s).versions
unfolding run
run-IsKept [] s k = record { valid = k; stays_active = λ a one. one }
run-IsKept (c ∷ cs) s k =
    let first = step-IsKept c s k in
    let rest = run-IsKept cs (step c s) first.valid in
    record {
      valid = rest.valid;
      stays_active = λ a one. rest.stays_active a (first.stays_active a one);
    }
