-- ===== src/Accounts/Numbers.antt =====
-- The numbers of validation accounts, `provision_validation_account` of core/accountstore.py.
use ai_agent_stock_trading_s.Prelude.{
  ℕ, zero, suc, ◌+◌, ◌≤◌, ◌<◌, ◌≡◌, Bool, true, false, ◌&&◌, List, [], ◌∷◌, any, count_where,
  length, arith, Bool-cases, inl, inr, leb, ◌==◌,
}
use ai_agent_stock_trading_s.Accounts.{
  Store, Account, AccountId, main_of, trial_of, validation_of, is_account, same_account,
}
use ai_agent_stock_trading_s.Accounts.Trial.{free_number, validation_account}

-- The accounts whose number is n or more.
abbrev numbered : ℕ → ℕ → AccountId → Bool
numbered i n (validation_of a m) = (a == i) && leb n m
numbered i n _ = false

numbered_less : (i n : ℕ) (x : AccountId) → numbered i (n + 1) x ≡ true → numbered i n x ≡ true
numbered_less i n (main_of a) h = ground arith
numbered_less i n (trial_of a) h = ground arith
numbered_less i n (validation_of a m) h = ground arith

numbered_here :
    (i n : ℕ) (x : AccountId)
    → same_account x (validation_of i n) ≡ true
    → (numbered i n x ≡ true) × (numbered i (n + 1) x ≡ false)
numbered_here i n (main_of a) h = ground arith
numbered_here i n (trial_of a) h = ground arith
numbered_here i n (validation_of a m) h = ground arith

numbered_mono :
    (i n : ℕ) (ms : List Account)
    → count_where (λ a. numbered i (n + 1) a.id) ms ≤ count_where (λ a. numbered i n a.id) ms
numbered_mono i n [] = ground arith
numbered_mono i n (m ∷ ms) = elim (Bool-cases (numbered i (n + 1) m.id)) [
  | inl more ↦ rw (more, numbered_less i n m.id more) (omega (arith, numbered_mono i n ms))
  | inr less ↦ rw less (ground (arith, numbered_mono i n ms))
]

numbered_suc :
    (i n : ℕ) (ms : List Account)
    → any (is_account (validation_of i n)) ms ≡ true
    → count_where (λ a. numbered i (n + 1) a.id) ms < count_where (λ a. numbered i n a.id) ms
numbered_suc i n [] h = ground arith
numbered_suc i n (m ∷ ms) h = elim (Bool-cases (is_account (validation_of i n) m)) [
  | inl hit ↦
      let (now, later) = numbered_here i n m.id hit in
      rw (now, later) (omega (arith, numbered_mono i n ms))
  | inr miss ↦
      let rest = numbered_suc i n ms (rw miss at h) in
      elim (Bool-cases (numbered i (n + 1) m.id)) [
        | inl more ↦ rw (more, numbered_less i n m.id more) (omega (arith, rest))
        | inr less ↦ rw less (ground (arith, rest))
      ]
]

free_number-free :
    (fuel i n : ℕ) (ms : List Account)
    → count_where (λ a. numbered i n a.id) ms ≤ fuel
    → any (is_account (validation_of i (free_number fuel i n ms))) ms ≡ false
unfolding free_number
free_number-free zero i n ms h = elim (Bool-cases (any (is_account (validation_of i n)) ms)) [
  | inr free ↦ free
  | inl taken ↦ absurd (ground (arith, numbered_suc i n ms taken))
]
free_number-free (suc fuel) i n ms h = elim (Bool-cases (any (is_account (validation_of i n)) ms)) [
  | inr free ↦ rw free free
  | inl taken ↦
      rw taken (free_number-free fuel i (n + 1) ms (omega (arith, numbered_suc i n ms taken)))
]

count-length : (i n : ℕ) (ms : List Account) → count_where (λ a. numbered i n a.id) ms ≤ length ms
count-length i n [] = ground arith
count-length i n (m ∷ ms) = ground (arith, count-length i n ms)

-- The search for the number of a new validation account ends at an id that no account has.
pub validation_account_free :
    (i : ℕ) (s : Store) → any (is_account (validation_account i s).id) s.accounts ≡ false
unfolding validation_account
validation_account_free i s =
    free_number-free (length s.accounts) i 1 s.accounts (count-length i 1 s.accounts)
