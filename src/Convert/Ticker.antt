-- ===== src/Convert/Ticker.antt =====
-- FIX42NoMDEntriesRepeatingGroupFromTradeTicker of convert/fix_msg.go.
use bfxfixgw.Base.{
  ℕ, zero, suc, ◌≤◌, ◌≡◌, refl, arith, Option, none, some, Option-cases, Bool-cases, true, inl, inr,
  ◌⊎◌, List, [], ◌∷◌, if◌then◌else◌,
}
use bfxfixgw.Base.Floats.{Floats, Decimals}
use bfxfixgw.Fix.{Value, text, dec}
use bfxfixgw.Fix.MdEntryType
use bfxfixgw.Fix.Tag

infixl 5 ◌>>=◌
abbrev ◌>>=◌ : {A B : Type 0} → Option A → (A → Option B) → Option B
none >>= f = none
some a >>= f = f a

module _ {ℓ} {A : Type ℓ} where
  abbrev pub length : List A → ℕ
  length [] = 0
  length (a ∷ l) = suc (length l)

  -- l[i], or a panic
  unfoldable pub get_elem? : List A → ℕ → Option A
  get_elem? [] i = none
  get_elem? (a ∷ l) zero = some a
  get_elem? (a ∷ l) (suc i) = get_elem? l i

  get_elem?-bound : (l : List A) (i : ℕ) (a : A) → get_elem? l i ≡ some a → suc i ≤ length l
  unfolding get_elem?
  get_elem?-bound [] i a h = absurd (cc h)
  get_elem?-bound (b ∷ l) zero a h = omega arith
  get_elem?-bound (b ∷ l) (suc i) a h = let w = get_elem?-bound l i a h in omega arith

module _ {F : Type 0} ⦃fl : Floats F⦄ where
  -- The data has a number at the index, and it is finite.
  abbrev pub IsGood : List F → ℕ → Type 0
  IsGood l i = (x : F) × (get_elem? l i ≡ some x) × (fl.is_finite x ≡ true)

  -- The numbers that the function converts.
  pub record AllGood (l : List F) : Type 0 where
    pub bid_px : IsGood l 0
    pub bid_size : IsGood l 1
    pub offer_px : IsGood l 2
    pub offer_size : IsGood l 3
    pub trade_px : IsGood l 6
    pub volume : IsGood l 7
    pub high : IsGood l 8
    pub low : IsGood l 9

module _ {F D : Type 0} ⦃fl : Floats F⦄ ⦃dc : Decimals F D⦄ where
  -- decimal.NewFromFloat(data[i]), or a panic: of the index, or on a number that is not finite
  unfoldable pub number : List F → ℕ → Option D
  unfolding get_elem?
  number data_of i = elim (get_elem? data_of i) [
    | none ↦ none
    | some x ↦ if fl.is_finite x then some (dc.of_float x) else none
  ]

  -- The entries, in the order in which they are added; the fields of each, the one set last in
  -- front. `none` is a panic.
  unfoldable pub trade_ticker_group : List F → Option (List (List (ℕ × Value D)))
  unfolding number
  trade_ticker_group data_of = do
    bid_px ← number data_of 0
    bid_size ← number data_of 1
    offer_px ← number data_of 2
    offer_size ← number data_of 3
    trade_px ← number data_of 6
    volume ← number data_of 7
    high ← number data_of 8
    low ← number data_of 9
    some (
        ((Tag.md_entry_size, dec bid_size 3)
          ∷ (Tag.md_entry_px, dec bid_px 2)
          ∷ (Tag.md_entry_type, text MdEntryType.bid)
          ∷ [])
        ∷ ((Tag.md_entry_size, dec offer_size 3)
            ∷ (Tag.md_entry_px, dec offer_px 2)
            ∷ (Tag.md_entry_type, text MdEntryType.offer)
            ∷ [])
        ∷ ((Tag.md_entry_px, dec trade_px 2) ∷ (Tag.md_entry_type, text MdEntryType.trade) ∷ [])
        ∷ ((Tag.md_entry_size, dec volume 8)
            ∷ (Tag.md_entry_type, text MdEntryType.trade_volume)
            ∷ [])
        ∷ ((Tag.md_entry_size, dec high 2)
            ∷ (Tag.md_entry_type, text MdEntryType.trading_session_high_price)
            ∷ [])
        ∷ ((Tag.md_entry_size, dec low 2)
            ∷ (Tag.md_entry_type, text MdEntryType.trading_session_low_price)
            ∷ [])
        ∷ [])

  number-cases :
      (l : List F) (i : ℕ)
      → (IsGood l i × (d : D) × (number l i ≡ some d)) ⊎ (¬ (IsGood l i) × (number l i ≡ none))
  unfolding number
  number-cases l i = elim (Option-cases (get_elem? l i)) [
    | inl short ↦ inr ((λ g. cc (short, g.1)), rw (short, number) refl)
    | inr (x, at) ↦ elim (Bool-cases (fl.is_finite x)) [
      | inl finite ↦ inl ((x, at, finite), dc.of_float x, rw (at, number) (rw finite refl))
      | inr over ↦ inr (
        (λ g. let same : some x ≡ some g.0 = cc (at, g.1) in cc (same, over, g.2)),
        rw (at, number) (rw over refl),
      )
    ]
  ]

  -- The group of a ticker is built, with six entries, exactly if the data has the eight numbers that
  -- are converted, at 0 to 3 and at 6 to 9, and these are finite; the data then has at least ten
  -- numbers. Otherwise the function panics.
  pub trade_ticker_group_bound :
      (l : List F)
      → (AllGood l
          × (10 ≤ length l)
          × (g : List (List (ℕ × Value D))) × (trade_ticker_group l ≡ some g)
          × (length g ≡ 6))
        ⊎ (¬ (AllGood l) × (trade_ticker_group l ≡ none))
  unfolding trade_ticker_group
  trade_ticker_group_bound l = elim (number-cases l 0) [
    | inr (bad, e0) ↦ inr ((λ a. bad a.bid_px), rw (e0, trade_ticker_group) refl)
    | inl (g0, d0, e0) ↦ elim (number-cases l 1) [
      | inr (bad, e1) ↦ inr ((λ a. bad a.bid_size), rw (e0, e1, trade_ticker_group) refl)
      | inl (g1, d1, e1) ↦ elim (number-cases l 2) [
        | inr (bad, e2) ↦ inr ((λ a. bad a.offer_px), rw (e0, e1, e2, trade_ticker_group) refl)
        | inl (g2, d2, e2) ↦ elim (number-cases l 3) [
          | inr (bad, e3) ↦
              inr ((λ a. bad a.offer_size), rw (e0, e1, e2, e3, trade_ticker_group) refl)
          | inl (g3, d3, e3) ↦ elim (number-cases l 6) [
            | inr (bad, e6) ↦
                inr ((λ a. bad a.trade_px), rw (e0, e1, e2, e3, e6, trade_ticker_group) refl)
            | inl (g6, d6, e6) ↦ elim (number-cases l 7) [
              | inr (bad, e7) ↦
                  inr ((λ a. bad a.volume), rw (e0, e1, e2, e3, e6, e7, trade_ticker_group) refl)
              | inl (g7, d7, e7) ↦ elim (number-cases l 8) [
                | inr (bad, e8) ↦
                    inr
                      ((λ a. bad a.high), rw (e0, e1, e2, e3, e6, e7, e8, trade_ticker_group) refl)
                | inl (g8, d8, e8) ↦ elim (number-cases l 9) [
                  | inr (bad, e9) ↦ inr (
                    (λ a. bad a.low),
                    rw (e0, e1, e2, e3, e6, e7, e8, e9, trade_ticker_group) refl,
                  )
                  | inl (g9, d9, e9) ↦
                      let (g, e, six) : (g : List (List (ℕ × Value D))) × (trade_ticker_group l
                            ≡ some g)
                          × (length g ≡ 6) =
                        rw (e0, e1, e2, e3, e6, e7, e8, e9, trade_ticker_group) (_, refl, refl) in
                      inl (
                        record {
                          bid_px = g0;
                          bid_size = g1;
                          offer_px = g2;
                          offer_size = g3;
                          trade_px = g6;
                          volume = g7;
                          high = g8;
                          low = g9;
                        },
                        get_elem?-bound l 9 g9.0 g9.1,
                        g,
                        e,
                        six,
                      )
                ]
              ]
            ]
          ]
        ]
      ]
    ]
  ]
