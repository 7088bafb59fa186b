-- ===== src/Engine/Corp/Keeps.antt =====
-- Properties of the book along the corporate actions of core/eodengine.py.
use ai_agent_stock_trading_s.Prelude.{
  ℕ, ◌≡◌, refl, Bool, true, false, ◌||◌, none, some, List, [], ◌∷◌, ℤ, pos, if◌then◌else◌, ◌==◌,
  any, Bool-cases, inl, inr, &&-true, pos_part,
}
use ai_agent_stock_trading_s.Engine.Result.{Result, ok, err, ◌>>=◌}
use ai_agent_stock_trading_s.Engine.Money.{FeeSchedule}
use ai_agent_stock_trading_s.Engine.Book.{Book, CorpKind, split_kind, dividend_kind, rights_kind}
use ai_agent_stock_trading_s.Engine.Corp.{
  Event, split, dividend, rights, delist_zero, delist_at, other_event, Corp, is_row, is_open_for,
  is_negative, split_book, marked_book, paid_book, delisted_book, corp_split, corp_dividend,
  corp_rights, corp_delist, delisted, Answer, waived, declined_insufficient, paid, answered,
  dispatch, counted, apply_events, apply_corp_actions, subscribed,
}

-- A property of books that the statements of the four kinds of event keep.
pub record IsCorpKept {ℓ} (P : Book → Type ℓ) : Type ℓ where
  pub by_split :
      (ex s ratio : ℕ) (b : Book)
      → any (is_row s ex) b.lots ≡ true
      → P b
      → P (split_book ex s ratio b)
  pub by_mark : (kind : CorpKind) (ex s : ℕ) (b : Book) → P b → P (marked_book kind ex s b)
  pub by_pay :
      (ex s price qty : ℕ) (b : Book)
      → any (is_row s ex) b.lots ≡ true
      → P b
      → P (paid_book ex s price qty b)
  pub by_delist : (s : ℕ) (b : Book) → P b → P (delisted_book s b)

module _ {ℓ} (P : Book → Type ℓ) (k : IsCorpKept P) (fee : FeeSchedule) (ex : ℕ) where
  abbrev Good : Result (Bool × Corp) → Type ℓ
  Good (ok (x, c)) = P c.book
  Good (err e) = Unit

  Good-if :
      (c : Bool) (m n : Result (Bool × Corp))
      → (c ≡ true → Good m)
      → Good n
      → Good (if c then m else n)
  Good-if true m n g h = g refl
  Good-if false m n g h = h

  row_of :
      (kind : CorpKind) (s : ℕ) (b : Book)
      → is_open_for kind ex s b.lots ≡ true
      → any (is_row s ex) b.lots ≡ true
  unfolding is_open_for
  row_of kind s b h = (&&-true (any (is_row s ex) b.lots) _ h).0

  answered-keeps :
      (s price qty : ℕ) (a : Answer) (c : Corp)
      → any (is_row s ex) c.book.lots ≡ true
      → P c.book
      → P (answered ex s price qty a c).book
  answered-keeps s price qty paid c h p =
      k.by_mark rights_kind ex s _ (k.by_pay ex s price qty c.book h p)
  answered-keeps s price qty waived c h p = k.by_mark rights_kind ex s c.book p
  answered-keeps s price qty declined_insufficient c h p = k.by_mark rights_kind ex s c.book p

  delisted-Good : (s : ℕ) (credit : ℤ) (c : Corp) → P c.book → Good (ok (delisted ex s credit c))
  unfolding delisted
  delisted-Good s credit c p = elim (Bool-cases (any (is_row s ex) c.book.lots)) [
    | inl some_row ↦ rw some_row (k.by_delist s c.book p)
    | inr no_row ↦ rw no_row p
  ]

  dispatch-Good : (s : ℕ) (e : Event) (c : Corp) → P c.book → Good (dispatch fee ex s e c)
  unfolding corp_split corp_dividend corp_rights corp_delist
  dispatch-Good s (split none) c p = tt
  dispatch-Good s (split (some ratio)) c p =
      Good-if (is_negative ratio) _ _ (λ _. tt)
        (Good-if (is_open_for split_kind ex s c.book.lots) _ _
          (λ h. k.by_split ex s (pos_part ratio) c.book (row_of split_kind s c.book h) p) p)
  dispatch-Good s (dividend none tax_on) c p = tt
  dispatch-Good s (dividend (some dps) tax_on) c p =
      Good-if (is_negative dps) _ _ (λ _. tt)
        (Good-if (is_open_for dividend_kind ex s c.book.lots) _ _
          (λ _. k.by_mark dividend_kind ex s c.book p) p)
  dispatch-Good s (rights none price participate) c p = tt
  dispatch-Good s (rights (some ratio) none participate) c p = tt
  dispatch-Good s (rights (some ratio) (some price) participate) c p =
      Good-if (pos_part ratio == 0 || is_negative price) _ _ (λ _. tt)
        (Good-if (is_open_for rights_kind ex s c.book.lots) _ _
          (λ h.
            answered-keeps s (pos_part price) (subscribed ex s (pos_part ratio) c.book.lots) _ c
              (row_of rights_kind s c.book h) p)
          p)
  dispatch-Good s delist_zero c p = delisted-Good s (pos 0) c p
  dispatch-Good s (delist_at none) c p = tt
  dispatch-Good s (delist_at (some price)) c p =
      Good-if (pos_part price == 0) _ _ (λ _. tt) (delisted-Good s _ c p)
  dispatch-Good s other_event c p = tt

  abbrev GoodCorp : Result Corp → Type ℓ
  GoodCorp (ok c) = P c.book
  GoodCorp (err e) = Unit

  GoodCorp-next :
      {V : Type 0} (m : Result V) (f : V → Result Corp)
      → ((r : V) → m ≡ ok r → GoodCorp (f r))
      → GoodCorp (m >>= f)
  GoodCorp-next (ok r) f h = h r refl
  GoodCorp-next (err e) f h = tt

  counted-keeps : (s : ℕ) (r : Bool × Corp) → P r.1.book → P (counted s r).book
  counted-keeps s (false, c) p = p
  counted-keeps s (true, c) p = p

  apply_events-Good :
      (s : ℕ) (es : List Event) (c : Corp) → P c.book → GoodCorp (apply_events fee ex s es c)
  unfolding apply_events
  apply_events-Good s [] c p = p
  apply_events-Good s (e ∷ es) c p = GoodCorp-next (dispatch fee ex s e c) _ (λ r q.
      apply_events-Good s es (counted s r) (counted-keeps s r (rw q at (dispatch-Good s e c p))))

  apply_corp_actions-Good :
      (events : List (ℕ × List Event)) (c : Corp)
      → P c.book
      → GoodCorp (apply_corp_actions fee ex events c)
  unfolding apply_corp_actions
  apply_corp_actions-Good [] c p = p
  apply_corp_actions-Good ((s, es) ∷ rest) c p =
      GoodCorp-next (apply_events fee ex s es c) _
        (λ r q. apply_corp_actions-Good rest r (rw q at (apply_events-Good s es c p)))

  -- What each statement keeps holds after the day's corporate actions.
  pub apply_corp_actions-keeps :
      (events : List (ℕ × List Event)) (c c' : Corp)
      → apply_corp_actions fee ex events c ≡ ok c'
      → P c.book
      → P c'.book
  apply_corp_actions-keeps events c c' e p = rw e at (apply_corp_actions-Good events c p)
