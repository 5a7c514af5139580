-- ===== src/Fix/Tag.antt =====
-- The tags of the fields that the program sets or reads, named as in FIX.
use bfxfixgw.Base.{ℕ}

abbrev pub account : ℕ
account = 1

abbrev pub avg_px : ℕ
avg_px = 6

abbrev pub cl_ord_id : ℕ
cl_ord_id = 11

abbrev pub commission : ℕ
commission = 12

abbrev pub comm_type : ℕ
comm_type = 13

abbrev pub cum_qty : ℕ
cum_qty = 14

abbrev pub currency : ℕ
currency = 15

abbrev pub exec_id : ℕ
exec_id = 17

abbrev pub exec_inst : ℕ
exec_inst = 18

abbrev pub exec_trans_type : ℕ
exec_trans_type = 20

abbrev pub id_source : ℕ
id_source = 22

abbrev pub last_px : ℕ
last_px = 31

abbrev pub last_shares : ℕ
last_shares = 32

abbrev pub order_id : ℕ
order_id = 37

abbrev pub order_qty : ℕ
order_qty = 38

abbrev pub ord_status : ℕ
ord_status = 39

abbrev pub ord_type : ℕ
ord_type = 40

abbrev pub orig_cl_ord_id : ℕ
orig_cl_ord_id = 41

abbrev pub price : ℕ
price = 44

abbrev pub security_id : ℕ
security_id = 48

abbrev pub side : ℕ
side = 54

abbrev pub symbol : ℕ
symbol = 55

abbrev pub text : ℕ
text = 58

abbrev pub time_in_force : ℕ
time_in_force = 59

abbrev pub transact_time : ℕ
transact_time = 60

abbrev pub stop_px : ℕ
stop_px = 99

abbrev pub cxl_rej_reason : ℕ
cxl_rej_reason = 102

abbrev pub expire_time : ℕ
expire_time = 126

abbrev pub exec_type : ℕ
exec_type = 150

abbrev pub leaves_qty : ℕ
leaves_qty = 151

abbrev pub peg_difference : ℕ
peg_difference = 211

abbrev pub md_req_id : ℕ
md_req_id = 262

abbrev pub subscription_request_type : ℕ
subscription_request_type = 263

abbrev pub market_depth : ℕ
market_depth = 264

abbrev pub aggregated_book : ℕ
aggregated_book = 266

abbrev pub md_entry_type : ℕ
md_entry_type = 269

abbrev pub md_entry_px : ℕ
md_entry_px = 270

abbrev pub md_entry_size : ℕ
md_entry_size = 271

abbrev pub md_update_action : ℕ
md_update_action = 279

abbrev pub md_req_rej_reason : ℕ
md_req_rej_reason = 281

abbrev pub ref_msg_type : ℕ
ref_msg_type = 372

abbrev pub business_reject_reason : ℕ
business_reject_reason = 380

abbrev pub cxl_rej_response_to : ℕ
cxl_rej_response_to = 434

abbrev pub cash_margin : ℕ
cash_margin = 544

abbrev pub account_type : ℕ
account_type = 581

abbrev pub quantity : ℕ
quantity = 53

abbrev pub pos_maint_rpt_id : ℕ
pos_maint_rpt_id = 721

abbrev pub clearing_business_date : ℕ
clearing_business_date = 715

abbrev pub settl_price : ℕ
settl_price = 730

abbrev pub settl_price_type : ℕ
settl_price_type = 731

abbrev pub prior_settl_price : ℕ
prior_settl_price = 734

abbrev pub open_interest : ℕ
open_interest = 746

abbrev pub margin_excess : ℕ
margin_excess = 899

abbrev pub display_method : ℕ
display_method = 1084

abbrev pub contingency_type : ℕ
contingency_type = 1385

abbrev pub cancel_on_disconnect : ℕ
cancel_on_disconnect = 8013

abbrev pub bfx_api_key : ℕ
bfx_api_key = 20000

abbrev pub bfx_api_secret : ℕ
bfx_api_secret = 20001

abbrev pub bfx_user_id : ℕ
bfx_user_id = 20002

abbrev pub price_precision : ℕ
price_precision = 20003

abbrev pub md_request_type : ℕ
md_request_type = 20004

abbrev pub leverage : ℕ
leverage = 20005

abbrev pub margin_funding_type : ℕ
margin_funding_type = 20006

abbrev pub profit_loss : ℕ
profit_loss = 20007

abbrev pub profit_loss_percentage : ℕ
profit_loss_percentage = 20008

abbrev pub begin_string : ℕ
begin_string = 8
