-- ===== src/Engine/Corp/Marks.antt =====
-- The tags that keep a corporate action of core/eodengine.py from being applied twice.
use ai_agent_stock_trading_s.Prelude.{
  ℕ, ◌≡◌, refl, Bool, true, false, not, ◌&&◌, ◌||◌, Option, none, some, List, [], ◌∷◌, ◌++◌, ◌⊎◌, ℤ,
  pos, arith, if◌then◌else◌, ◌==◌, any, update_where, delete_where, Bool-cases, inl, inr, pos_part,
}
use ai_agent_stock_trading_s.Engine.Result.{Result, ok, err}
use ai_agent_stock_trading_s.Engine.Money.{FeeSchedule}
use ai_agent_stock_trading_s.Engine.Book.{
  Book, Lot, Tag, CorpKind, split_kind, dividend_kind, rights_kind, is_lot,
}
use ai_agent_stock_trading_s.Engine.Corp.{
  Event, split, dividend, rights, delist_zero, delist_at, other_event, Corp, is_row, is_open_for,
  is_negative, same_kind, same_tag, append_flag, tag_of, is_marked, mark, split_lot, split_book,
  marked_book, paid_book, corp_split, corp_dividend, corp_rights, corp_delist, delisted, Answer,
  waived, declined_insufficient, paid, answered, dispatch, subscribed,
}

same_tag_refl : (t : Tag) → same_tag t t ≡ true
same_tag_refl t = by_kind t.kind
  where
    by_kind :
        (k : CorpKind) → (same_kind k k && (t.date == t.date) && (t.symbol == t.symbol)) ≡ true
    by_kind split_kind = ground arith
    by_kind dividend_kind = ground arith
    by_kind rights_kind = ground arith

any-last : (t : Tag) (ts : List Tag) → any (same_tag t) (ts ++ t ∷ []) ≡ true
any-last t [] = rw (same_tag_refl t)
any-last t (x ∷ xs) = elim (Bool-cases (same_tag t x)) [
  | inl hit ↦ rw hit
  | inr miss ↦ rw miss (any-last t xs)
]

any-append_flag : (t : Tag) (ts : List Tag) → any (same_tag t) (append_flag t ts) ≡ true
unfolding append_flag
any-append_flag t ts = elim (Bool-cases (any (same_tag t) ts)) [
  | inl hit ↦ rw hit hit
  | inr miss ↦ rw miss (any-last t ts)
]

-- Every row after an update that tags the rows carries the tag, so the event is closed.
module _ (kind : CorpKind) (ex s : ℕ) (f : Lot → Lot)
    (tags : (l : Lot) → any (same_tag (tag_of kind ex s)) (f l).flags ≡ true) where
  any-is_marked :
      (ls : List Lot)
      → any (is_marked kind ex s) (update_where (is_row s ex) f ls)
        ≡ any (is_row s ex) (update_where (is_row s ex) f ls)
  any-is_marked [] = refl
  any-is_marked (l ∷ ls) = elim (Bool-cases (is_row s ex l)) [
    | inl hit ↦ rw (hit, tags l) (by_tagged (any-is_marked ls) (Bool-cases (is_row s ex (f l))))
    | inr miss ↦ rw (miss, miss) (any-is_marked ls)
  ]
    where
      by_tagged :
          any (is_marked kind ex s) (update_where (is_row s ex) f ls)
            ≡ any (is_row s ex) (update_where (is_row s ex) f ls)
          → ((is_row s ex (f l) ≡ true) ⊎ (is_row s ex (f l) ≡ false))
          → (if is_row s ex (f l) && true
              then true
              else any (is_marked kind ex s) (update_where (is_row s ex) f ls))
            ≡ (if is_row s ex (f l)
                then true
                else any (is_row s ex) (update_where (is_row s ex) f ls))
      by_tagged h (inl e) = rw e
      by_tagged h (inr e) = rw e h

  closed : (ls : List Lot) → is_open_for kind ex s (update_where (is_row s ex) f ls) ≡ false
  unfolding is_open_for
  closed ls = rw (any-is_marked ls) (by_rows (any (is_row s ex) (update_where (is_row s ex) f ls)))
    where
      by_rows : (x : Bool) → (x && not x) ≡ false
      by_rows true = refl
      by_rows false = refl

closed-mark :
    (kind : CorpKind) (ex s : ℕ) (b : Book)
    → is_open_for kind ex s (marked_book kind ex s b).lots ≡ false
closed-mark kind ex s b =
    closed kind ex s (mark kind ex s) (λ l. any-append_flag (tag_of kind ex s) l.flags) b.lots

closed-split :
    (ex s ratio : ℕ) (b : Book) → is_open_for split_kind ex s (split_book ex s ratio b).lots ≡ false
unfolding split_book split_lot
closed-split ex s ratio b =
    closed split_kind ex s (split_lot ex s ratio)
      (λ l. any-append_flag (tag_of split_kind ex s) l.flags) b.lots

closed-answered :
    (ex s price qty : ℕ) (a : Answer) (c : Corp)
    → is_open_for rights_kind ex s (answered ex s price qty a c).book.lots ≡ false
closed-answered ex s price qty paid c =
    closed-mark rights_kind ex s (paid_book ex s price qty c.book)
closed-answered ex s price qty waived c = closed-mark rights_kind ex s c.book
closed-answered ex s price qty declined_insufficient c = closed-mark rights_kind ex s c.book

-- The kind whose tag an event leaves, where it leaves one.
abbrev pub kind_of : Event → Option CorpKind
kind_of (split _) = some split_kind
kind_of (dividend _ _) = some dividend_kind
kind_of (rights _ _ _) = some rights_kind
kind_of _ = none

module _ (fee : FeeSchedule) (ex s : ℕ) where
  -- What an outcome says if its event did something.
  abbrev Closes : Option CorpKind → Result (Bool × Corp) → Type 0
  Closes (some kind) (ok (true, c)) = is_open_for kind ex s c.book.lots ≡ false
  Closes none (ok (true, c)) = any (is_row s ex) c.book.lots ≡ false
  Closes k m = Unit

  Closes-if :
      (k : Option CorpKind) (x : Bool) (m n : Result (Bool × Corp))
      → Closes k m
      → Closes k n
      → Closes k (if x then m else n)
  Closes-if k true m n g h = g
  Closes-if k false m n g h = h

  Closes-idle : (k : Option CorpKind) (c : Corp) → Closes k (ok (false, c))
  Closes-idle (some k) c = tt
  Closes-idle none c = tt

  no_rows : (ls : List Lot) → any (is_row s ex) (delete_where (is_lot s) ls) ≡ false
  no_rows [] = refl
  no_rows (l ∷ ls) = ground (arith, no_rows ls)

  delisted-Closes : (credit : ℤ) (c : Corp) → Closes none (ok (delisted ex s credit c))
  unfolding delisted
  delisted-Closes credit c = elim (Bool-cases (any (is_row s ex) c.book.lots)) [
    | inl some_row ↦ rw some_row (no_rows c.book.lots)
    | inr no_row ↦ rw no_row tt
  ]

  dispatch-Closes : (e : Event) (c : Corp) → Closes (kind_of e) (dispatch fee ex s e c)
  unfolding corp_split corp_dividend corp_rights corp_delist
  dispatch-Closes (split none) c = tt
  dispatch-Closes (split (some ratio)) c = Closes-if (some split_kind) (is_negative ratio) _ _ tt (
      Closes-if (some split_kind) (is_open_for split_kind ex s c.book.lots) _ _
        (closed-split ex s (pos_part ratio) c.book) tt)
  dispatch-Closes (dividend none tax_on) c = tt
  dispatch-Closes (dividend (some dps) tax_on) c =
      Closes-if (some dividend_kind) (is_negative dps) _ _ tt (
        Closes-if (some dividend_kind) (is_open_for dividend_kind ex s c.book.lots) _ _
          (closed-mark dividend_kind ex s c.book) tt)
  dispatch-Closes (rights none price participate) c = tt
  dispatch-Closes (rights (some ratio) none participate) c = tt
  dispatch-Closes (rights (some ratio) (some price) participate) c =
      Closes-if (some rights_kind) (pos_part ratio == 0 || is_negative price) _ _ tt (
        Closes-if (some rights_kind) (is_open_for rights_kind ex s c.book.lots) _ _
          (closed-answered ex s (pos_part price) (subscribed ex s (pos_part ratio) c.book.lots) _ c)
          tt)
  dispatch-Closes delist_zero c = delisted-Closes (pos 0) c
  dispatch-Closes (delist_at none) c = tt
  dispatch-Closes (delist_at (some price)) c =
      Closes-if none (pos_part price == 0) _ _ tt (delisted-Closes _ c)
  dispatch-Closes other_event c = tt

  -- What an outcome says if its event is closed.
  abbrev Idle : Corp → Result (Bool × Corp) → Type 0
  Idle c (ok (x, c')) = (x ≡ false) × (c' ≡ c)
  Idle c (err e) = Unit

  Idle-if :
      (c : Corp) (x : Bool) (m n : Result (Bool × Corp))
      → (x ≡ true → Idle c m)
      → Idle c n
      → Idle c (if x then m else n)
  Idle-if c true m n g h = g refl
  Idle-if c false m n g h = h

  -- A closed event runs into its early return, whatever it would have done.
  Idle-closed :
      (c : Corp) (kind : CorpKind) (m : Result (Bool × Corp))
      → is_open_for kind ex s c.book.lots ≡ false
      → Idle c (if is_open_for kind ex s c.book.lots then m else ok (false, c))
  Idle-closed c kind m h = rw h (refl, refl)

  dispatch-Idle :
      (e : Event) (kind : CorpKind) (c : Corp)
      → kind_of e ≡ some kind
      → is_open_for kind ex s c.book.lots ≡ false
      → Idle c (dispatch fee ex s e c)
  unfolding corp_split corp_dividend corp_rights
  dispatch-Idle (split none) kind c e h = tt
  dispatch-Idle (split (some ratio)) kind c e h =
      let same : split_kind ≡ kind = cc in
      Idle-if c (is_negative ratio) _ _ (λ _. tt) (Idle-closed c split_kind _ (rw same h))
  dispatch-Idle (dividend none tax_on) kind c e h = tt
  dispatch-Idle (dividend (some dps) tax_on) kind c e h =
      let same : dividend_kind ≡ kind = cc in
      Idle-if c (is_negative dps) _ _ (λ _. tt) (Idle-closed c dividend_kind _ (rw same h))
  dispatch-Idle (rights none price participate) kind c e h = tt
  dispatch-Idle (rights (some ratio) none participate) kind c e h = tt
  dispatch-Idle (rights (some ratio) (some price) participate) kind c e h =
      let same : rights_kind ≡ kind = cc in
      Idle-if c (pos_part ratio == 0 || is_negative price) _ _ (λ _. tt)
        (Idle-closed c rights_kind _ (rw same h))
  dispatch-Idle delist_zero kind c e h = cc
  dispatch-Idle (delist_at price) kind c e h = cc
  dispatch-Idle other_event kind c e h = cc

  -- Of two events of one kind for one symbol on one day, splits, dividends or rights, the second
  -- does nothing once the first was applied, be it the same event again or another one.
  pub second_event_ignored :
      (e e' : Event) (kind : CorpKind) (c c' c'' : Corp) (r : Bool)
      → kind_of e ≡ some kind
      → kind_of e' ≡ some kind
      → dispatch fee ex s e c ≡ ok (true, c')
      → dispatch fee ex s e' c' ≡ ok (r, c'')
      → (r ≡ false) × (c'' ≡ c')
  second_event_ignored e e' kind c c' c'' r k k' first second =
      rw second at (dispatch-Idle e' kind c' k' (rw (first, k) at (dispatch-Closes e c)))

  no_row-is_open_for :
      (kind : CorpKind) (ls : List Lot)
      → any (is_row s ex) ls ≡ false
      → is_open_for kind ex s ls ≡ false
  unfolding is_open_for
  no_row-is_open_for kind ls h = rw h

  delisted-Idle :
      (credit : ℤ) (c : Corp)
      → any (is_row s ex) c.book.lots ≡ false
      → Idle c (ok (delisted ex s credit c))
  unfolding delisted
  delisted-Idle credit c h = rw h (refl, refl)

  dispatch-Idle_delisted :
      (e : Event) (c : Corp)
      → any (is_row s ex) c.book.lots ≡ false
      → Idle c (dispatch fee ex s e c)
  unfolding corp_delist
  dispatch-Idle_delisted (split ratio) c h =
      dispatch-Idle (split ratio) split_kind c refl (no_row-is_open_for split_kind _ h)
  dispatch-Idle_delisted (dividend dps tax_on) c h =
      dispatch-Idle (dividend dps tax_on) dividend_kind c refl
        (no_row-is_open_for dividend_kind _ h)
  dispatch-Idle_delisted (rights ratio price participate) c h =
      dispatch-Idle (rights ratio price participate) rights_kind c refl
        (no_row-is_open_for rights_kind _ h)
  dispatch-Idle_delisted delist_zero c h = delisted-Idle (pos 0) c h
  dispatch-Idle_delisted (delist_at none) c h = tt
  dispatch-Idle_delisted (delist_at (some price)) c h =
      Idle-if c (pos_part price == 0) _ _ (λ _. tt) (delisted-Idle _ c h)
  dispatch-Idle_delisted other_event c h = tt

  -- After a delisting that was applied, no event of the symbol on the day does anything.
  pub delisting_is_last :
      (e e' : Event) (c c' c'' : Corp) (r : Bool)
      → kind_of e ≡ none
      → dispatch fee ex s e c ≡ ok (true, c')
      → dispatch fee ex s e' c' ≡ ok (r, c'')
      → (r ≡ false) × (c'' ≡ c')
  delisting_is_last e e' c c' c'' r k first second =
      rw second at (dispatch-Idle_delisted e' c' (rw (first, k) at (dispatch-Closes e c)))
