-- ===== src/Approval/Lifecycle.antt =====
-- The life of the requests of core/approval.py: what each call does to the table, and what a sequence
-- of calls does.
use ai_agent_stock_trading_s.Prelude.{
  ℕ, ◌≤◌, ◌<◌, ◌≡◌, refl, Bool, true, false, Option, none, some, List, [], ◌∷◌, ◌++◌, arith, ltb,
  if◌then◌else◌, length, find, any, select, update_where, count_where, ◌⊎◌, inl, inr, Bool-cases,
  subst, count_where-append, length-select,
}
use ai_agent_stock_trading_s.Approval.Effects.{
  ApprovalType, EffectResult, failed, applied, effect_of,
}
use ai_agent_stock_trading_s.Approval.{
  Request, expired, Store, is_pending, is_request, is_open, is_overdue, pending_like, Submission,
  submit_approval, decide_approval, expire_overdue, expire_each, close_for_interrupt, Call, submits,
  decides, expires, closes, step, run, Decision, approve, reject, new_request, pending_limit,
  or_zero, decide_row, decide_open, decide_expired, approve_with, close_row, expire, log,
  expire_row,
}
use ai_agent_stock_trading_s.Approval.Table.{
  Evolves, Advances, HasKeys, Advances-refl, Advances-trans, Advances-append, update-Advances,
  update_open-Advances, update-HasKeys, append-HasKeys, pending_like_unique, count-update,
}

-- What every call does to the table of requests.
pub record IsLawful (s t : Store) : Type 0 where
  pub advances : Advances s.requests t.requests
  pub keys : HasKeys t.requests
  pub quota :
      (a : ℕ) (k : ApprovalType)
      → count_where (pending_like a k) s.requests ≤ pending_limit
      → count_where (pending_like a k) t.requests ≤ pending_limit

pub IsLawful-trans : (s t u : Store) → IsLawful s t → IsLawful t u → IsLawful s u
IsLawful-trans s t u g h = record {
  advances = Advances-trans s.requests t.requests u.requests g.advances h.advances;
  keys = h.keys;
  quota = λ a k few. h.quota a k (g.quota a k few);
}

-- A submission changes nothing, or enters a new pending request under the quota.
pub submit_cases :
    (q : Submission) (now : ℕ) (s : Store)
    → ((submit_approval q now s).1 ≡ s)
      ⊎ ((any (is_request q.id) s.requests ≡ false)
          × (length (select (pending_like q.agent q.kind) s.requests) < pending_limit)
          × ((submit_approval q now s).1.requests
              ≡ s.requests ++ new_request q (or_zero q.reason) now ∷ []))
unfolding submit_approval
submit_cases q now s = ground arith

-- One more row under the quota of its agent and kind keeps every quota.
quota-insert :
    (a : ℕ) (k : ApprovalType) (r : Request) (rs : List Request)
    → length (select (pending_like r.agent r.kind) rs) < pending_limit
    → count_where (pending_like a k) rs ≤ pending_limit
    → count_where (pending_like a k) (rs ++ r ∷ []) ≤ pending_limit
quota-insert a k r rs room h = elim (Bool-cases (pending_like a k r)) [
  | inr other ↦ ground (arith, count_where-append (pending_like a k) rs (r ∷ []))
  | inl same ↦
      let (agent, kind) = pending_like_unique a k r same in
      let small : length (select (pending_like a k) rs) < pending_limit =
        subst (λ x. length (select (pending_like x k) rs) < pending_limit) agent
          (subst (λ x. length (select (pending_like r.agent x) rs) < pending_limit) kind room) in
      ground (
        arith,
        count_where-append (pending_like a k) rs (r ∷ []),
        length-select (pending_like a k) rs,
      )
]

submit-IsLawful :
    (q : Submission) (now : ℕ) (s : Store)
    → HasKeys s.requests
    → IsLawful s (submit_approval q now s).1
unfolding new_request
submit-IsLawful q now s k = elim (submit_cases q now s) [
  | inl same ↦
      rw same (record { advances = Advances-refl s.requests; keys = k; quota = λ a l h. h })
  | inr (fresh, room, e) ↦ record {
    advances = rw e (Advances-append s.requests _);
    keys = rw e (append-HasKeys _ s.requests fresh k);
    quota = λ a l h. rw e (quota-insert a l _ s.requests room h);
  }
]

-- What closes a pending row and keeps the rest of it.
abbrev Closes : (Request → Request) → Type 0
Closes f =
    (r : Request)
    → (is_pending (f r).status ≡ false)
      × ((f r).id ≡ r.id)
      × ((f r).kind ≡ r.kind)
      × ((f r).agent ≡ r.agent)
      × ((f r).content_hash ≡ r.content_hash)
      × ((f r).created_ts ≡ r.created_ts)

Closes-Evolves :
    (f : Request → Request) (r : Request) → Closes f → is_pending r.status ≡ true → Evolves r (f r)
Closes-Evolves f r c live = with_all (c r)
  where
    with_all :
        (is_pending (f r).status ≡ false)
          × ((f r).id ≡ r.id)
          × ((f r).kind ≡ r.kind)
          × ((f r).agent ≡ r.agent)
          × ((f r).content_hash ≡ r.content_hash)
          × ((f r).created_ts ≡ r.created_ts)
        → Evolves r (f r)
    with_all (gone, i, k, a, h, t) = inr (live, gone, i, k, a, h, t)

Closes-id : (f : Request → Request) → Closes f → (r : Request) → (f r).id ≡ r.id
Closes-id f c r = ground (arith, c r)

fewer :
    (f : Request → Request) (rs : List Request) (p : Request → Bool)
    → Closes f
    → (a : ℕ) (k : ApprovalType) → count_where (pending_like a k) rs ≤ pending_limit
    → count_where (pending_like a k) (update_where p f rs) ≤ pending_limit
fewer f rs p c a k h = omega (arith, count-update a k p f rs (λ r. (c r).0))

close_key-IsLawful :
    (i : ℕ) (f : Request → Request) (r : Request) (s t : Store)
    → HasKeys s.requests
    → find (is_request i) s.requests ≡ some r
    → is_pending r.status ≡ true
    → Closes f
    → t.requests ≡ update_where (is_request i) f s.requests
    → IsLawful s t
close_key-IsLawful i f r s t k e live c same = record {
  advances = rw same (update-Advances i f s.requests r k e (Closes-Evolves f r c live));
  keys = rw same (update-HasKeys (is_request i) f s.requests (Closes-id f c) k);
  quota = λ a l h. rw same (fewer f s.requests (is_request i) c a l h);
}

close_open-IsLawful :
    (i : ℕ) (f : Request → Request) (s t : Store)
    → HasKeys s.requests
    → Closes f
    → t.requests ≡ update_where (is_open i) f s.requests
    → IsLawful s t
close_open-IsLawful i f s t k c same = record {
  advances = rw same (update_open-Advances i f s.requests (λ r live. Closes-Evolves f r c live));
  keys = rw same (update-HasKeys (is_open i) f s.requests (Closes-id f c) k);
  quota = λ a l h. rw same (fewer f s.requests (is_open i) c a l h);
}

pub same-IsLawful : (s t : Store) → HasKeys s.requests → t.requests ≡ s.requests → IsLawful s t
same-IsLawful s t k e = record {
  advances = rw e (Advances-refl s.requests);
  keys = rw e k;
  quota = λ a l h. rw e h;
}

decide-IsLawful :
    (what : Decision) (i by now reason ref : ℕ) (s : Store)
    → HasKeys s.requests
    → IsLawful s (decide_approval what i by now reason ref s).1
unfolding decide_approval
decide-IsLawful what i by now reason ref s k = by_row (find (is_request i) s.requests) refl
  where
    open_row :
        (what : Decision) (r : Request)
        → find (is_request i) s.requests ≡ some r
        → is_pending r.status ≡ true
        → IsLawful s (decide_open what i by now reason ref r s).1
    open_row reject r e live =
        close_key-IsLawful i _ r s _ k e live (λ x. (refl, refl, refl, refl, refl, refl)) refl
    open_row approve r e live = by_effect (effect_of r.kind r.payload r.agent now s.config)
      where
        by_effect : (x : EffectResult) → IsLawful s (approve_with i by now reason ref s x).1
        by_effect failed = same-IsLawful s s k refl
        by_effect (applied c) =
            close_key-IsLawful i _ r s _ k e live (λ x. (refl, refl, refl, refl, refl, refl)) refl

    by_time :
        (late : Bool) (r : Request)
        → find (is_request i) s.requests ≡ some r
        → is_pending r.status ≡ true
        → IsLawful s
            (if late then decide_expired i by now s else decide_open what i by now reason ref r s).1
    by_time true r e live =
        close_key-IsLawful i _ r s _ k e live (λ x. (refl, refl, refl, refl, refl, refl)) refl
    by_time false r e live = open_row what r e live

    by_row :
        (m : Option Request)
        → find (is_request i) s.requests ≡ m
        → IsLawful s (decide_row what i by now reason ref s m).1
    by_row none e = same-IsLawful s s k refl
    by_row (some r) e = elim (Bool-cases (is_pending r.status)) [
      | inr closed ↦ rw closed (same-IsLawful s _ k refl)
      | inl live ↦ rw live (by_time (ltb r.expires_ts now) r e live)
    ]

expire_each-IsLawful :
    (scheduler now : ℕ) (rs : List Request) (s : Store)
    → HasKeys s.requests
    → IsLawful s (expire_each scheduler now rs s)
unfolding expire_each
expire_each-IsLawful scheduler now [] s k = same-IsLawful s s k refl
expire_each-IsLawful scheduler now (r ∷ rs) s k =
    let t : Store =
      log now scheduler expire r.id expired
        (record s { requests = update_where (is_open r.id) expire_row s.requests }) in
    let one : IsLawful s t =
      close_open-IsLawful r.id expire_row s t k (λ x. (refl, refl, refl, refl, refl, refl)) refl in
    let rest = expire_each-IsLawful scheduler now rs t one.keys in
    record {
      advances = Advances-trans s.requests t.requests _ one.advances rest.advances;
      keys = rest.keys;
      quota = λ a l h. rest.quota a l (one.quota a l h);
    }

pub close-IsLawful :
    (i note actor now : ℕ) (s : Store)
    → HasKeys s.requests
    → IsLawful s (close_for_interrupt i note actor now s).1
unfolding close_for_interrupt
close-IsLawful i note actor now s k = by_row (find (is_request i) s.requests)
  where
    by_row : (m : Option Request) → IsLawful s (close_row i note actor now s m).1
    by_row none = same-IsLawful s s k refl
    by_row (some r) = elim (Bool-cases (is_pending r.status)) [
      | inr closed ↦ rw closed (same-IsLawful s s k refl)
      | inl live ↦
          rw live (close_open-IsLawful i _ s _ k (λ x. (refl, refl, refl, refl, refl, refl)) refl)
    ]

pub step-IsLawful : (s : Store) (c : Call) → HasKeys s.requests → IsLawful s (step s c)
unfolding step expire_overdue
step-IsLawful s (submits q now) k = submit-IsLawful q now s k
step-IsLawful s (decides what i by now reason ref) k = decide-IsLawful what i by now reason ref s k
step-IsLawful s (expires scheduler now) k =
    expire_each-IsLawful scheduler now (select (is_overdue now) s.requests) s k
step-IsLawful s (closes i note actor now) k = close-IsLawful i note actor now s k

-- Over any sequence of submissions, decisions, expiries and closings, from a table with distinct
-- ids: ids stay distinct, no request is lost, and each request either stays as it is or was
-- pending and is so no more, with its id, type, agent, content hash and creation unchanged. So a
-- request is decided at most once.
pub run-Advances :
    (s : Store) (cs : List Call)
    → HasKeys s.requests
    → Advances s.requests (run s cs).requests × HasKeys (run s cs).requests
unfolding run
run-Advances s [] k = (Advances-refl s.requests, k)
run-Advances s (c ∷ cs) k =
    let one = step-IsLawful s c k in
    let rest = run-Advances (step s c) cs one.keys in
    (Advances-trans s.requests (step s c).requests _ one.advances rest.0, rest.1)

-- If an agent has three pending requests of a type at most, and the ids of the table are
-- distinct, it has three at most after any sequence of calls.
pub run-quota :
    (s : Store) (cs : List Call) (a : ℕ) (k : ApprovalType)
    → HasKeys s.requests
    → count_where (pending_like a k) s.requests ≤ pending_limit
    → count_where (pending_like a k) (run s cs).requests ≤ pending_limit
unfolding run
run-quota s [] a k keys h = h
run-quota s (c ∷ cs) a k keys h =
    let one = step-IsLawful s c keys in run-quota (step s c) cs a k one.keys (one.quota a k h)
