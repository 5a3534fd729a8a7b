-- ===== src/Models/Esim.antt =====
-- app/models/esim.py. The nullable columns of one type are one field, a function of the column, as
-- `setattr` reaches them by name.
use seemsim_esim_gateway.Prelude.{ℕ, String, Bool, Option, if◌then◌else◌, nat_eq}
use seemsim_esim_gateway.Prelude.Int.{ℤ}
use seemsim_esim_gateway.Python.Json.{Object}

pub data TextColumn : Type 0 where
  provider_esim_tran_no imsi msisdn smdp_address matching_id : TextColumn
  activation_code qr_code_url short_url smdp_status esim_status : TextColumn
  pin puk apn duration_unit fup_policy : TextColumn

pub data NumberColumn : Type 0 where
  total_volume total_duration order_usage support_topup_type : NumberColumn

pub data TimeColumn : Type 0 where
  activate_time installation_time expired_time : TimeColumn

-- A number for each column, by which columns are compared.
abbrev text_index : TextColumn → ℕ
text_index provider_esim_tran_no = 0
text_index imsi = 1
text_index msisdn = 2
text_index smdp_address = 3
text_index matching_id = 4
text_index activation_code = 5
text_index qr_code_url = 6
text_index short_url = 7
text_index smdp_status = 8
text_index esim_status = 9
text_index pin = 10
text_index puk = 11
text_index apn = 12
text_index duration_unit = 13
text_index fup_policy = 14

abbrev number_index : NumberColumn → ℕ
number_index total_volume = 0
number_index total_duration = 1
number_index order_usage = 2
number_index support_topup_type = 3

abbrev time_index : TimeColumn → ℕ
time_index activate_time = 0
time_index installation_time = 1
time_index expired_time = 2

abbrev pub same_text : TextColumn → TextColumn → Bool
same_text c d = nat_eq (text_index c) (text_index d)

abbrev pub same_number : NumberColumn → NumberColumn → Bool
same_number c d = nat_eq (number_index c) (number_index d)

abbrev pub same_time : TimeColumn → TimeColumn → Bool
same_time c d = nat_eq (time_index c) (time_index d)

pub record Esim : Type 0 where
  pub id : String
  pub iccid : String
  pub provider_name : String
  pub order_id : String
  pub status : String
  pub text : TextColumn → Option String
  pub number : NumberColumn → Option ℤ
  pub time : TimeColumn → Option ℕ
  pub raw_provider_data : Option Object
  pub raw_provider_payload : Option Object
  pub created_at : ℕ

pub record EsimStatusHistory : Type 0 where
  pub id : String
  pub esim_id : String
  pub iccid : String
  pub previous_status : Option String
  pub new_status : String
  pub source : String
  pub recorded_at : ℕ

-- `esim.column = value`
abbrev pub set_text : TextColumn → Option String → Esim → Esim
set_text c v e = record e { text = λ d. if same_text c d then v else e.text d }

abbrev pub set_number : NumberColumn → Option ℤ → Esim → Esim
set_number c v e = record e { number = λ d. if same_number c d then v else e.number d }

abbrev pub set_time : TimeColumn → Option ℕ → Esim → Esim
set_time c v e = record e { time = λ d. if same_time c d then v else e.time d }
