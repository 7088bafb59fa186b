-- ===== src/Accounts/Windows.antt =====
-- The state of the trials (core/accountstore.py): what their calls keep, and the searches in tables.
use ai_agent_stock_trading_s.Prelude.{
  ℕ, ◌≤◌, ◌≡◌, refl, sym, ap, Bool, true, false, none, some, List, [], ◌∷◌, ◌++◌, arith,
  if◌then◌else◌, any, find, update_where, count_where, Bool-cases, inl, inr, ◌⊎◌,
  count_where-append,
}
use ai_agent_stock_trading_s.Accounts.{
  Store, Agent, TrialReplay, Session, store_of, Decision, is_agent, is_on_trial,
}
use ai_agent_stock_trading_s.Accounts.Trial.{
  create_trial_agent, provision_validation_account, add_trial_session, finish_trial, is_done,
  is_replay_of, of_agent, is_session, with_session,
}

-- A call of the trial.
pub data Call : Type 0 where
  creates : ℕ → ℕ → Call
  provisions : ℕ → Call
  replays_day : ℕ → ℕ → Call
  finishes : ℕ → Decision → Call

unfoldable pub step : Call → Store → Store
step (creates i window) s = store_of s (create_trial_agent i window s)
step (provisions i) s = store_of s (provision_validation_account i s)
step (replays_day i day) s = store_of s (add_trial_session i day s)
step (finishes i what) s = store_of s (finish_trial i what s)

unfoldable pub run : List Call → Store → Store
run [] s = s
run (c ∷ cs) s = run cs (step c s)

abbrev pub IsOver : Store → ℕ → Type 0
IsOver s i = (a : Agent) → find (is_agent i) s.agents ≡ some a → is_on_trial a.status ≡ false

-- A window of five days at least, full if it is done, unless the agent's trial is over.
pub record IsFull (s : Store) (i : ℕ) (r : TrialReplay) : Type 0 where
  pub window : 5 ≤ r.window_days
  pub full :
      is_done r.status ≡ true → (r.window_days ≤ count_where (of_agent i) s.sessions) ⊎ IsOver s i

-- One session for each agent and day.
abbrev pub HasOnce : List Session → Type 0
HasOnce [] = Unit
HasOnce (x ∷ xs) = (any (is_session x.agent_id x.trade_date) xs ≡ false) × HasOnce xs

pub some_eq {ℓ} : {A : Type ℓ} (x y : A) → some x ≡ some y → x ≡ y
some_eq x y h = ap (λ o. elim o [ none ↦ x | some z ↦ z ]) h

pub record IsValid (s : Store) : Type 0 where
  pub once : HasOnce s.sessions
  pub windows : (i : ℕ) (r : TrialReplay) → find (is_replay_of i) s.replays ≡ some r → IsFull s i r

pub any-append_last :
    (p : Session → Bool) (x : Session) (xs : List Session)
    → any p (xs ++ x ∷ []) ≡ (if any p xs then true else p x)
any-append_last p x [] = ground arith
any-append_last p x (y ∷ ys) = ground (arith, any-append_last p x ys)

pub append-HasOnce :
    (x : Session) (xs : List Session)
    → any (is_session x.agent_id x.trade_date) xs ≡ false
    → HasOnce xs
    → HasOnce (xs ++ x ∷ [])
append-HasOnce x [] h g = (refl, tt)
append-HasOnce x (y ∷ ys) h g =
    ground
      (arith, any-append_last (is_session y.agent_id y.trade_date) x ys, append-HasOnce x ys, g.1)

pub with-HasOnce : (i day : ℕ) (xs : List Session) → HasOnce xs → HasOnce (with_session i day xs)
with-HasOnce i day xs h = elim (Bool-cases (any (is_session i day) xs)) [
  | inl seen ↦ rw seen h
  | inr fresh ↦ rw fresh (append-HasOnce (record { agent_id = i; trade_date = day }) xs fresh h)
]

-- A session more never lowers a count.
pub with-grows :
    (i day k : ℕ) (xs : List Session)
    → count_where (of_agent k) xs ≤ count_where (of_agent k) (with_session i day xs)
with-grows i day k xs =
    ground
      (arith, count_where-append (of_agent k) xs (record { agent_id = i; trade_date = day } ∷ []))

-- What a search finds after an update that keeps the key: the row of before, updated or not.
pub found_update {ℓ} :
    {A : Type ℓ} (q p : A → Bool) (f : A → A) (xs : List A) (x : A)
    → ((y : A) → q (f y) ≡ q y)
    → find q (update_where p f xs) ≡ some x
    → (y : A) × (find q xs ≡ some y) × (((p y ≡ false) × (x ≡ y)) ⊎ ((p y ≡ true) × (x ≡ f y)))
found_update q p f [] x keeps h = ground arith
found_update q p f (y ∷ ys) x keeps h = elim (Bool-cases (q y)) [
  | inr miss ↦ rw miss (
      found_update q p f ys x keeps (elim (Bool-cases (p y)) [
        | inl hit ↦ rw (hit, keeps y, miss) at h
        | inr other ↦ rw (other, miss) at h
      ]))
  | inl same ↦ rw same (elim (Bool-cases (p y)) [
    | inl hit ↦ (y, refl, inr (hit, sym (some_eq (f y) x (rw (hit, keeps y, same) at h))))
    | inr other ↦ (y, refl, inl (other, sym (some_eq y x (rw (other, same) at h))))
  ])
]

-- What is not the row that is added is found as before.
pub find-append_other {ℓ} :
    {A : Type ℓ} (q : A → Bool) (x : A) (xs : List A)
    → q x ≡ false
    → find q (xs ++ x ∷ []) ≡ find q xs
find-append_other q x [] h = rw h refl
find-append_other q x (y ∷ ys) h = elim (Bool-cases (q y)) [
  | inl hit ↦ rw hit refl
  | inr miss ↦ rw miss (find-append_other q x ys h)
]

pub find-append_fresh {ℓ} :
    {A : Type ℓ} (q : A → Bool) (x : A) (xs : List A)
    → any q xs ≡ false
    → q x ≡ true
    → find q (xs ++ x ∷ []) ≡ some x
find-append_fresh q x [] h g = rw g refl
find-append_fresh q x (y ∷ ys) h g = elim (Bool-cases (q y)) [
  | inl hit ↦ ground arith
  | inr miss ↦ rw miss (find-append_fresh q x ys (rw miss at h) g)
]

pub find_holds {ℓ} :
    {A : Type ℓ} (p : A → Bool) (xs : List A) (x : A) → find p xs ≡ some x → p x ≡ true
find_holds p [] x h = ground arith
find_holds p (y ∷ ys) x h = elim (Bool-cases (p y)) [
  | inl hit ↦ rw (some_eq y x (rw hit at h)) at hit
  | inr miss ↦ find_holds p ys x (rw miss at h)
]
