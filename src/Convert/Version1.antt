-- ===== src/Convert/Version1.antt =====
-- convert/websocket.go: values of any type, and the orders of version 1 of the Bitfinex API.
use bfxfixgw.Base.{
  String, Bool, false, ◌≡◌, refl, List, [], ◌∷◌, ◌==◌, if◌then◌else◌, inl, inr, Option, none, some,
}
use bfxfixgw.Base.Floats.{Floats}
use bfxfixgw.Base.Int.{ℤ, pos, negsuc}
use bfxfixgw.Convert.OrderType
use bfxfixgw.Convert.ToFix.{status_active, status_canceled}
use bfxfixgw.World.{Answer, got, failed, Answer-cases}

-- interface{}, by the type of what it holds
pub data Interface (F : Type 0) : Type 0 where
  an_int64 : ℤ → Interface F
  a_float64 : F → Interface F
  a_bool : Bool → Interface F
  a_string : String → Interface F
  another : Interface F

module _ {F : Type 0} where
  -- Int64OrZero
  unfoldable pub int64_or_zero : Interface F → ℤ
  int64_or_zero (an_int64 r) = r
  int64_or_zero _ = pos 0

  -- BoolOrFalse
  unfoldable pub bool_or_false : Interface F → Bool
  bool_or_false (a_bool r) = r
  bool_or_false _ = false

  -- StringOrEmpty
  unfoldable pub string_or_empty : Interface F → String
  string_or_empty (a_string r) = r
  string_or_empty _ = ""

module _ {F : Type 0} ⦃fl : Floats F⦄ where
  -- Float64OrZero
  unfoldable pub float64_or_zero : Interface F → F
  float64_or_zero (a_float64 r) = r
  float64_or_zero _ = fl.zero

-- Order of version 1, the fields that are read
pub record OldOrder : Type 0 where
  pub id : ℤ
  pub symbol : String
  pub is_hidden : Bool
  pub timestamp : String
  pub price : String
  pub avg_execution_price : String
  pub is_canceled : Bool
  pub is_live : Bool
  pub side : String
  pub original_amount : String
  pub remaining_amount : String
  pub type : String

-- bitfinex.Order, the fields that are set
pub record NewerOrder (F : Type 0) : Type 0 where
  pub id : ℤ
  pub symbol : String
  pub hidden : Bool
  pub mts_created : ℤ
  pub mts_updated : ℤ
  pub price : F
  pub price_avg : F
  pub status : String
  pub amount_orig : F
  pub amount : F
  pub type : String

-- strconv.ParseFloat with 64 bits, and the conversions int64(x) and float64(n)
pub record FloatText (F : Type 0) : Type 0 where
  pub parse_float : String → Answer F
  pub to_int64 : F → ℤ
  pub of_int64 : ℤ → F

-- The status, which is empty if the order is neither.
unfoldable pub status_of_old : (is_canceled is_live : Bool) → String
status_of_old is_canceled is_live =
    if is_canceled then status_canceled else if is_live then status_active else ""

-- The type, which is empty for any other.
unfoldable pub type_of_old : String → String
type_of_old t =
    if t == "market"
    then OrderType.market
    else if t == "limit"
    then OrderType.limit
    else if t == "exchange limit"
    then OrderType.exchange_limit
    else if t == "stop"
    then OrderType.stop
    else if t == "trailing-stop"
    then OrderType.trailing_stop
    else ""

module _ {F : Type 0} ⦃fl : Floats F⦄ (ft : FloatText F) where
  -- OrderFromV1Order
  unfoldable pub order_from_v1_order : OldOrder → Answer (NewerOrder F)
  unfolding status_of_old type_of_old
  order_from_v1_order o = elim (ft.parse_float o.timestamp) [
    | failed e ↦ failed e
    | got ts ↦ elim (ft.parse_float o.price) [
      | failed e ↦ failed e
      | got p ↦ elim (ft.parse_float o.avg_execution_price) [
        | failed e ↦ failed e
        | got ap ↦ elim (ft.parse_float o.original_amount) [
          | failed e ↦ failed e
          | got oa ↦ elim (ft.parse_float o.remaining_amount) [
            | failed e ↦ failed e
            | got remaining ↦
                let mul = if o.side == "sell" then negsuc 0 else pos 1 in
                got (record {
                  id = o.id;
                  symbol = o.symbol;
                  hidden = o.is_hidden;
                  mts_created = ft.to_int64 ts;
                  mts_updated = ft.to_int64 ts;
                  price = p;
                  price_avg = ap;
                  status = status_of_old o.is_canceled o.is_live;
                  amount_orig = oa;
                  amount = fl.mul remaining (ft.of_int64 mul);
                  type = type_of_old o.type;
                })
          ]
        ]
      ]
    ]
  ]

  -- The first error among the answers.
  abbrev pub first_error : List (Answer F) → Option String
  first_error [] = none
  first_error (failed e ∷ rest) = some e
  first_error (got x ∷ rest) = first_error rest

  -- The five numbers of an order, in the order in which they are read.
  abbrev pub numbers : OldOrder → List (Answer F)
  numbers o =
      ft.parse_float o.timestamp
      ∷ ft.parse_float o.price
      ∷ ft.parse_float o.avg_execution_price
      ∷ ft.parse_float o.original_amount
      ∷ ft.parse_float o.remaining_amount
      ∷ []

  -- The conversion of an order of version 1 fails with the first error among its five numbers, and
  -- gives an order with the same id, symbol and visibility if there is none.
  pub order_from_v1_order_errors :
      (o : OldOrder)
      → ((e : String) → first_error (numbers o) ≡ some e → order_from_v1_order o ≡ failed e)
        × (first_error (numbers o) ≡ none
            → (x : NewerOrder F) × (order_from_v1_order o ≡ got x)
              × (x.id ≡ o.id)
              × (x.symbol ≡ o.symbol)
              × (x.hidden ≡ o.is_hidden))
  unfolding order_from_v1_order
  order_from_v1_order_errors o = elim (Answer-cases (ft.parse_float o.timestamp)) [
    | inl (a, bad) ↦ (rw (bad, order_from_v1_order) (λ e h. cc h), rw bad (λ h. cc h))
    | inr (t, ok1) ↦ elim (Answer-cases (ft.parse_float o.price)) [
      | inl (a, bad) ↦ (rw (ok1, bad, order_from_v1_order) (λ e h. cc h), rw (ok1, bad) (λ h. cc h))
      | inr (p, ok2) ↦ elim (Answer-cases (ft.parse_float o.avg_execution_price)) [
        | inl (a, bad) ↦
            (rw (ok1, ok2, bad, order_from_v1_order) (λ e h. cc h), rw (ok1, ok2, bad) (λ h. cc h))
        | inr (v, ok3) ↦ elim (Answer-cases (ft.parse_float o.original_amount)) [
          | inl (a, bad) ↦ (
            rw (ok1, ok2, ok3, bad, order_from_v1_order) (λ e h. cc h),
            rw (ok1, ok2, ok3, bad) (λ h. cc h),
          )
          | inr (oa, ok4) ↦ elim (Answer-cases (ft.parse_float o.remaining_amount)) [
            | inl (a, bad) ↦ (
              rw (ok1, ok2, ok3, ok4, bad, order_from_v1_order) (λ e h. cc h),
              rw (ok1, ok2, ok3, ok4, bad) (λ h. cc h),
            )
            | inr (r, ok5) ↦ (
              rw (ok1, ok2, ok3, ok4, ok5) (λ e h. cc h),
              rw (ok1, ok2, ok3, ok4, ok5, order_from_v1_order) (λ h. (_, refl, refl, refl, refl)),
            )
          ]
        ]
      ]
    ]
  ]
