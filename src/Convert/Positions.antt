-- ===== src/Convert/Positions.antt =====
-- convert/fix_msg.go: position reports of wallets and positions, which are built as FIX 5.0
-- messages whatever the session's BeginString.
use bfxfixgw.Base.{String, [], ◌∷◌}
use bfxfixgw.Base.Floats.{Decimals}
use bfxfixgw.Base.Int.{ℤ}
use bfxfixgw.Convert.FromFix.{or_same}
use bfxfixgw.Fix.{text, int, dec, fixt11, GenericFix, position_report}
use bfxfixgw.Fix.SettlPriceType
use bfxfixgw.Fix.Tag
use bfxfixgw.Symbol.{Symbology}

-- bitfinex.Wallet
pub record Wallet (F : Type 0) : Type 0 where
  pub type : String
  pub currency : String
  pub balance : F
  pub unsettled_interest : F
  pub balance_available : F

-- bitfinex.Position
pub record Position (F : Type 0) : Type 0 where
  pub symbol : String
  pub status : String
  pub amount : F
  pub base_price : F
  pub margin_funding : F
  pub margin_funding_type : ℤ
  pub profit_loss : F
  pub profit_loss_percentage : F
  pub liquidation_price : F
  pub leverage : F

module _ {F D : Type 0} ⦃dc : Decimals F D⦄ where
  -- FIXPositionReportFromWallet; `rpt_id` is the new identifier, `today` the local market date, and
  -- `begin_string` the text of the session's version.
  unfoldable pub position_report_from_wallet :
      (begin_string rpt_id today : String) → Wallet F → (account : String) → GenericFix D
  position_report_from_wallet begin_string rpt_id today wallet account = record {
    version = fixt11;
    kind = position_report;
    fields =
        (Tag.open_interest, dec (dc.of_float wallet.unsettled_interest) 4)
        ∷ (Tag.prior_settl_price, dec (dc.of_float wallet.balance) 4)
        ∷ (Tag.settl_price_type, text SettlPriceType.final)
        ∷ (Tag.settl_price, dec (dc.of_float wallet.balance_available) 4)
        ∷ (Tag.currency, text wallet.currency)
        ∷ (Tag.begin_string, text begin_string)
        ∷ (Tag.account_type, text wallet.type)
        ∷ (Tag.account, text account)
        ∷ (Tag.clearing_business_date, text today)
        ∷ (Tag.pos_maint_rpt_id, text rpt_id)
        ∷ [];
    group = [];
  }

  -- FIXPositionReportFromPosition
  unfoldable pub position_report_from_position :
      (begin_string rpt_id today : String)
      → Position F
      → (account : String) → Symbology
      → (counterparty : String) → GenericFix D
  position_report_from_position begin_string rpt_id today position account symbology counterparty =
      let sym = or_same position.symbol (symbology.from_bitfinex position.symbol counterparty) in
      record {
        version = fixt11;
        kind = position_report;
        fields =
            (Tag.profit_loss_percentage, dec (dc.of_float position.profit_loss_percentage) 4)
            ∷ (Tag.profit_loss, dec (dc.of_float position.profit_loss) 4)
            ∷ (Tag.margin_funding_type, int position.margin_funding_type)
            ∷ (Tag.margin_excess, dec (dc.of_float position.margin_funding) 4)
            ∷ (Tag.leverage, dec (dc.of_float position.leverage) 4)
            ∷ (Tag.prior_settl_price, dec (dc.of_float position.base_price) 4)
            ∷ (Tag.settl_price_type, text SettlPriceType.final)
            ∷ (Tag.settl_price, dec (dc.of_float position.liquidation_price) 4)
            ∷ (Tag.quantity, dec (dc.of_float position.amount) 4)
            ∷ (Tag.symbol, text sym)
            ∷ (Tag.begin_string, text begin_string)
            ∷ (Tag.account_type, text position.status)
            ∷ (Tag.account, text account)
            ∷ (Tag.clearing_business_date, text today)
            ∷ (Tag.pos_maint_rpt_id, text rpt_id)
            ∷ [];
        group = [];
      }
