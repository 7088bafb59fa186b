-- ===== src/Approval/Table.antt =====
-- The table approval_requests of core/approval.py: its keys, how its rows evolve, and how the
-- UPDATE and INSERT statements of the module act on both.
use ai_agent_stock_trading_s.Prelude.{
  ℕ, ◌≤◌, ◌≡◌, refl, Bool, true, false, ◌&&◌, some, List, [], ◌∷◌, ◌++◌, arith, ◌==◌, if◌then◌else◌,
  find, any, update_where, count_where, ◌⊎◌, inl, inr, Bool-cases, eq_true→eq, subst,
}
use ai_agent_stock_trading_s.Approval.Effects.{ApprovalType, same_type}
use ai_agent_stock_trading_s.Approval.{Request, is_pending, is_request, is_open, pending_like}

-- A row stays as it is, or it was pending, is so no more, and keeps its identity and its content.
abbrev pub Evolves : Request → Request → Type 0
Evolves r x =
    (x ≡ r)
    ⊎ ((is_pending r.status ≡ true)
        × (is_pending x.status ≡ false)
        × (x.id ≡ r.id)
        × (x.kind ≡ r.kind)
        × (x.agent ≡ r.agent)
        × (x.content_hash ≡ r.content_hash)
        × (x.created_ts ≡ r.created_ts))

-- Every row of the first table evolves in place; the second may have more rows.
abbrev pub Advances : List Request → List Request → Type 0
Advances [] ys = Unit
Advances (x ∷ xs) [] = ⊥
Advances (x ∷ xs) (y ∷ ys) = Evolves x y × Advances xs ys

-- The primary key.
abbrev pub HasKeys : List Request → Type 0
HasKeys [] = Unit
HasKeys (r ∷ rs) = (any (is_request r.id) rs ≡ false) × HasKeys rs

pub Advances-refl : (rs : List Request) → Advances rs rs
Advances-refl [] = tt
Advances-refl (r ∷ rs) = (inl refl, Advances-refl rs)

Evolves-trans : (r x y : Request) → Evolves r x → Evolves x y → Evolves r y
Evolves-trans r x y g h = ground arith

pub Advances-trans : (rs xs ys : List Request) → Advances rs xs → Advances xs ys → Advances rs ys
Advances-trans [] xs ys g h = tt
Advances-trans (r ∷ rs) [] ys g h = absurd g
Advances-trans (r ∷ rs) (x ∷ xs) [] g h = absurd h
Advances-trans (r ∷ rs) (x ∷ xs) (y ∷ ys) g h =
    (Evolves-trans r x y g.0 h.0, Advances-trans rs xs ys g.1 h.1)

pub Advances-append : (rs xs : List Request) → Advances rs (rs ++ xs)
Advances-append [] xs = tt
Advances-append (r ∷ rs) xs = (inl refl, Advances-append rs xs)

-- An update by the key changes no row where the key does not occur.
update_absent :
    (i : ℕ) (f : Request → Request) (rs : List Request)
    → any (is_request i) rs ≡ false
    → update_where (is_request i) f rs ≡ rs
update_absent i f [] h = refl
update_absent i f (r ∷ rs) h = ground (arith, update_absent i f rs)

-- An update by the key evolves the table if the row that the key finds evolves.
pub update-Advances :
    (i : ℕ) (f : Request → Request) (rs : List Request) (r : Request)
    → HasKeys rs
    → find (is_request i) rs ≡ some r
    → Evolves r (f r)
    → Advances rs (update_where (is_request i) f rs)
update-Advances i f [] r k e h = tt
update-Advances i f (x ∷ xs) r k e h = elim (Bool-cases (is_request i x)) [
  | inl hit ↦
      let same : r ≡ x = ground arith in
      let key : x.id ≡ i = eq_true→eq x.id i hit in
      let absent : any (is_request i) xs ≡ false = rw key at k.0 in
      rw (hit, update_absent i f xs absent) (subst (λ y. Evolves y (f y)) same h, Advances-refl xs)
  | inr miss ↦ rw miss (inl refl, update-Advances i f xs r k.1 (rw miss at e) h)
]

-- An update of open rows evolves the table if it closes every open row that it reaches.
pub update_open-Advances :
    (i : ℕ) (f : Request → Request) (rs : List Request)
    → ((r : Request) → is_pending r.status ≡ true → Evolves r (f r))
    → Advances rs (update_where (is_open i) f rs)
update_open-Advances i f [] h = tt
update_open-Advances i f (r ∷ rs) h = (ground (arith, h r), update_open-Advances i f rs h)

-- The keys of a table that evolves in place stay distinct.
any-update :
    (k i : ℕ) (p : Request → Bool) (f : Request → Request) (rs : List Request)
    → ((r : Request) → (f r).id ≡ r.id)
    → any (is_request k) (update_where p f rs) ≡ any (is_request k) rs
any-update k i p f [] h = refl
any-update k i p f (r ∷ rs) h = ground (arith, h r, any-update k i p f rs h)

pub update-HasKeys :
    (p : Request → Bool) (f : Request → Request) (rs : List Request)
    → ((r : Request) → (f r).id ≡ r.id)
    → HasKeys rs
    → HasKeys (update_where p f rs)
update-HasKeys p f [] h k = tt
update-HasKeys p f (r ∷ rs) h k = ground (
  arith,
  h r,
  any-update r.id 0 p f rs h,
  any-update (f r).id 0 p f rs h,
  update-HasKeys p f rs h k.1,
)

any-append :
    (i : ℕ) (rs : List Request) (r : Request)
    → any (is_request i) (rs ++ r ∷ []) ≡ (if any (is_request i) rs then true else is_request i r)
any-append i [] r = ground arith
any-append i (x ∷ xs) r = ground (arith, any-append i xs r)

pub append-HasKeys :
    (r : Request) (rs : List Request)
    → any (is_request r.id) rs ≡ false
    → HasKeys rs
    → HasKeys (rs ++ r ∷ [])
append-HasKeys r [] h k = (refl, tt)
append-HasKeys r (x ∷ xs) h k = ground (arith, any-append x.id xs r, append-HasKeys r xs, k.1)

same_type→eq : (k l : ApprovalType) → same_type k l ≡ true → k ≡ l
same_type→eq k l h = grind arith

-- A row is counted under one agent and one kind only.
pub pending_like_unique :
    (a : ℕ) (k : ApprovalType) (r : Request)
    → pending_like a k r ≡ true
    → (r.agent ≡ a) × (r.kind ≡ k)
pending_like_unique a k r h = ground (arith, same_type→eq r.kind k)

and_false : (b : Bool) → (b && false) ≡ false
and_false true = refl
and_false false = refl

closed_unlike :
    (a : ℕ) (k : ApprovalType) (r : Request)
    → is_pending r.status ≡ false
    → pending_like a k r ≡ false
closed_unlike a k r h = rw h (and_false ((r.agent == a) && same_type r.kind k))

-- An update whose rows are not counted lowers the count.
fewer_where :
    (q p : Request → Bool) (f : Request → Request) (rs : List Request)
    → ((r : Request) → q (f r) ≡ false)
    → count_where q (update_where p f rs) ≤ count_where q rs
fewer_where q p f [] h = omega arith
fewer_where q p f (r ∷ rs) h = elim (Bool-cases (p r)) [
  | inl hit ↦ rw (hit, h r) (ground (arith, fewer_where q p f rs h))
  | inr miss ↦ rw miss (ground (arith, fewer_where q p f rs h))
]

-- Rows that are closed count no more.
pub count-update :
    (a : ℕ) (k : ApprovalType) (p : Request → Bool) (f : Request → Request) (rs : List Request)
    → ((r : Request) → is_pending (f r).status ≡ false)
    → count_where (pending_like a k) (update_where p f rs) ≤ count_where (pending_like a k) rs
count-update a k p f rs h =
    fewer_where (pending_like a k) p f rs (λ r. closed_unlike a k (f r) (h r))
