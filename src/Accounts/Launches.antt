-- ===== src/Accounts/Launches.antt =====
-- The calls of a trial (core/accountstore.py) in a sequence, and the launch at its end.
use ai_agent_stock_trading_s.Prelude.{
  ℕ, ◌∙◌, ◌≤◌, ◌≡◌, refl, sym, subst, true, false, not, ◌&&◌, Option, none, some, List, [], ◌∷◌,
  ◌++◌, arith, ◌==◌, any, find, update_where, count_where, Bool-cases, inl, inr, ◌⊎◌, eq_true→eq,
}
use ai_agent_stock_trading_s.Accounts.{
  Store, Agent, Account, TrialReplay, in_progress, Outcome, store_of, Decision, launch, reject,
  trial_of, is_agent, is_on_trial, Archive,
}
use ai_agent_stock_trading_s.Accounts.Trial.{
  create_trial_agent, provision_validation_account, add_trial_session, finish_trial, is_done,
  is_replay_of, of_agent, finish_replay, next_status, provision_for, can_validate, is_live_main,
  validation_account, window_is_done, is_launch,
}
use ai_agent_stock_trading_s.Accounts.Windows.{
  Call, creates, provisions, replays_day, finishes, step, run, IsOver, IsFull, HasOnce, some_eq,
  IsValid, with-HasOnce, with-grows, found_update, find-append_other, find-append_fresh, find_holds,
}
use ai_agent_stock_trading_s.Accounts.Changes.{
  IsCreation, creation_lem, IsCounted, session_lem, IsEnd, finish_lem,
}

done-IsOver : (what : Decision) (a : Agent) → is_on_trial (next_status what) ≡ false
done-IsOver launch a = refl
done-IsOver reject a = refl

create-IsValid : (i window : ℕ) (s t : Store) → IsCreation i window s t → IsValid s → IsValid t
create-IsValid i window s t c v = record {
  once = rw c.sessions v.once;
  windows = λ k r h. windows_of k r (rw c.replays at h);
}
  where
    x : TrialReplay
    x = record {
      agent_id = i;
      trial_account_id = trial_of i;
      window_days = window;
      status = in_progress;
    }

    windows_of :
        (k : ℕ) (r : TrialReplay)
        → find (is_replay_of k) (s.replays ++ x ∷ []) ≡ some r
        → IsFull t k r
    windows_of k r h = elim (Bool-cases (i == k)) [
      | inl same ↦
          let key : i ≡ k = eq_true→eq i k same in
          let here : x ≡ r = some_eq x r (
            sym (
              find-append_fresh (is_replay_of k) x s.replays
                (subst (λ z. any (is_replay_of z) s.replays ≡ false) key c.new) same)
            ∙ h) in
          let going : is_done r.status ≡ false = subst (λ z. is_done z.status ≡ false) here refl in
          record { window = subst (λ z. 5 ≤ z.window_days) here c.good; full = λ d. ground arith }
      | inr other ↦
          let old =
            v.windows k r (sym (find-append_other (is_replay_of k) x s.replays other) ∙ h) in
          record {
            window = old.window;
            full = λ d. elim (old.full d) [
              | inl enough ↦ inl (rw c.sessions enough)
              | inr over ↦ inr (λ a g. over a (
                  sym (find-append_other (is_agent k) _ s.agents other)
                  ∙ subst (λ z. find (is_agent k) z ≡ some a) c.agents g))
            ];
          }
    ]

-- Two keys of one row are one.
same_key :
    (i k : ℕ) (y : TrialReplay) (rs : List TrialReplay)
    → find (is_replay_of k) rs ≡ some y
    → is_replay_of i y ≡ true
    → i ≡ k
same_key i k y rs found hit =
    sym (eq_true→eq y.agent_id i hit)
    ∙ eq_true→eq y.agent_id k (find_holds (is_replay_of k) rs y found)

session-IsValid : (i day : ℕ) (s t : Store) → IsCounted i day s t → IsValid s → IsValid t
session-IsValid i day s t c v = record {
  once = rw c.sessions (with-HasOnce i day s.sessions v.once);
  windows = λ k r h. windows_of k r h c.replays;
}
  where
    grown : (k : ℕ) (r : TrialReplay) → IsFull s k r → IsFull t k r
    grown k r old = record {
      window = old.window;
      full = λ d. elim (old.full d) [
        | inl enough ↦ inl (rw c.sessions (ground (arith, with-grows i day k s.sessions)))
        | inr over ↦ inr (λ a g. over a (rw c.agents at g))
      ];
    }

    updated :
        (k : ℕ) (r q y : TrialReplay)
        → find (is_replay_of i) s.replays ≡ some q
        → q.window_days ≤ count_where (of_agent i) t.sessions
        → find (is_replay_of k) s.replays ≡ some y
        → ((is_replay_of i y ≡ false) × (r ≡ y))
          ⊎ ((is_replay_of i y ≡ true) × (r ≡ finish_replay y))
        → IsFull t k r
    updated k r q y e enough found (inl (_, same)) = rw same (grown k y (v.windows k y found))
    updated k r q y e enough found (inr (hit, same)) =
        let key = same_key i k y s.replays found hit in
        let one : q ≡ y =
          some_eq q y
            (sym e ∙ subst (λ z. find (is_replay_of z) s.replays ≡ some y) (sym key) found) in
        rw same (record {
          window = (v.windows k y found).window;
          full = λ d. inl (
              subst (λ z. y.window_days ≤ count_where (of_agent z) t.sessions) key
                (subst (λ z. z.window_days ≤ count_where (of_agent i) t.sessions) one enough));
        })

    windows_of :
        (k : ℕ) (r : TrialReplay)
        → find (is_replay_of k) t.replays ≡ some r
        → (t.replays ≡ s.replays)
          ⊎ ((q : TrialReplay) × (find (is_replay_of i) s.replays ≡ some q)
              × (q.window_days ≤ count_where (of_agent i) t.sessions)
              × (t.replays ≡ update_where (is_replay_of i) finish_replay s.replays))
        → IsFull t k r
    windows_of k r h (inl same) = grown k r (v.windows k r (rw same at h))
    windows_of k r h (inr (q, e, enough, same)) =
        let (y, found, how) =
          found_update (is_replay_of k) (is_replay_of i) finish_replay s.replays r (λ z. refl)
            (rw same at h) in
        updated k r q y e enough found how

finish-IsValid : (i : ℕ) (what : Decision) (s t : Store) → IsEnd i what s t → IsValid s → IsValid t
finish-IsValid i what s t c v = record {
  once = rw c.sessions v.once;
  windows = λ k r h.
      (let (y, found, how) =
          found_update (is_replay_of k) (λ z. is_replay_of i z && not (is_done z.status))
            finish_replay s.replays r (λ z. refl) (rw c.replays at h) in
        windows_of k r y found how);
}
  where
    ended : Agent → Agent
    ended a = record a { status = next_status what }

    over_after : (k : ℕ) → IsOver s k → IsOver t k
    over_after k over a g =
        let (b, found, how) =
          found_update (is_agent k) (is_agent i) ended s.agents a (λ z. refl) (rw c.agents at g) in
        elim how [
          | inl (_, same) ↦ rw same (over b found)
          | inr (_, same) ↦ rw same (done-IsOver what b)
        ]

    over_here : IsOver t i
    over_here a g =
        let (b, found, how) =
          found_update (is_agent i) (is_agent i) ended s.agents a (λ z. refl) (rw c.agents at g) in
        elim how [
          | inl (miss, same) ↦ ground (arith, find_holds (is_agent i) s.agents b found)
          | inr (_, same) ↦ rw same (done-IsOver what b)
        ]

    windows_of :
        (k : ℕ) (r y : TrialReplay)
        → find (is_replay_of k) s.replays ≡ some y
        → (((is_replay_of i y && not (is_done y.status)) ≡ false) × (r ≡ y))
          ⊎ (((is_replay_of i y && not (is_done y.status)) ≡ true) × (r ≡ finish_replay y))
        → IsFull t k r
    windows_of k r y found (inl (_, same)) =
        let old = v.windows k y found in
        rw same (record {
          window = old.window;
          full = λ d. elim (old.full d) [
            | inl enough ↦ inl (rw c.sessions enough)
            | inr over ↦ inr (over_after k over)
          ];
        })
    windows_of k r y found (inr (hit, same)) =
        let here : is_replay_of i y ≡ true = ground arith in
        let key = same_key i k y s.replays found here in
        rw same (record {
          window = (v.windows k y found).window;
          full = λ d. inr (subst (λ z. IsOver t z) key over_here);
        })

accounts-IsValid :
    (s : Store) (ms : List Account) → IsValid s → IsValid (record s { accounts = ms })
accounts-IsValid s ms v = record {
  once = v.once;
  windows = λ k r h. record { window = (v.windows k r h).window; full = (v.windows k r h).full };
}

step-IsValid : (c : Call) (s : Store) → IsValid s → IsValid (step c s)
unfolding step provision_validation_account
step-IsValid (creates i window) s v = by_outcome (create_trial_agent i window s) refl
  where
    by_outcome : (o : Outcome Agent) → create_trial_agent i window s ≡ o → IsValid (store_of s o)
    by_outcome Outcome.refused e = v
    by_outcome (Outcome.done x t) e = create-IsValid i window s t (creation_lem i window s t x e) v
step-IsValid (provisions i) s v = by_agent (find (is_agent i) s.agents)
  where
    by_agent : (a : Option Agent) → IsValid (store_of s (provision_for i s a))
    by_agent none = v
    by_agent (some a) = elim (Bool-cases (can_validate a.status)) [
      | inr off ↦ rw off v
      | inl on ↦ rw on (elim (Bool-cases (any (is_live_main i) s.accounts)) [
        | inr none_live ↦ rw none_live v
        | inl live ↦ rw live (accounts-IsValid s (s.accounts ++ validation_account i s ∷ []) v)
      ])
    ]
step-IsValid (replays_day i day) s v = by_outcome (add_trial_session i day s) refl
  where
    by_outcome : (o : Outcome ℕ) → add_trial_session i day s ≡ o → IsValid (store_of s o)
    by_outcome Outcome.refused e = v
    by_outcome (Outcome.done n t) e = session-IsValid i day s t (session_lem i day s t n e) v
step-IsValid (finishes i what) s v = by_outcome (finish_trial i what s) refl
  where
    by_outcome : (o : Outcome Archive) → finish_trial i what s ≡ o → IsValid (store_of s o)
    by_outcome Outcome.refused e = v
    by_outcome (Outcome.done x t) e = finish-IsValid i what s t (finish_lem i what s t x e) v

pub run-IsValid : (cs : List Call) (s : Store) → IsValid s → IsValid (run cs s)
unfolding run
run-IsValid [] s v = v
run-IsValid (c ∷ cs) s v = run-IsValid cs (step c s) (step-IsValid c s v)

-- After any sequence of creations, provisions, replay days and ends of trials from a valid state,
-- a launch that succeeds is of an agent with five recorded replay days at least, and no agent has
-- a day recorded twice.
pub launch_after_window :
    (cs : List Call) (s t : Store) (i : ℕ) (x : Archive)
    → IsValid s
    → finish_trial i launch (run cs s) ≡ Outcome.done x t
    → (5 ≤ count_where (of_agent i) (run cs s).sessions) × HasOnce (run cs s).sessions
launch_after_window cs s t i x v h =
    (by_row (find (is_replay_of i) u.replays) refl end.gates, (run-IsValid cs s v).once)
  where
    u : Store
    u = run cs s

    end : IsEnd i launch u t
    end = finish_lem i launch u t x h

    by_row :
        (r : Option TrialReplay)
        → find (is_replay_of i) u.replays ≡ r
        → (is_launch launch && not (window_is_done r)) ≡ false
        → 5 ≤ count_where (of_agent i) u.sessions
    by_row none e g = ground arith
    by_row (some r) e g =
        let full = (run-IsValid cs s v).windows i r e in
        let over : is_done r.status ≡ true = ground arith in
        let (a, found, on) = end.on_trial in
        elim (full.full over) [
          | inl enough ↦ omega (arith, enough, full.window)
          | inr off ↦ ground (arith, off a found)
        ]
