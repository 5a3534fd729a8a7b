-- ===== src/Schemas/Esim.antt =====
-- app/schemas/esim.py, and `EsimDetailOut` of app/schemas/order.py. The nullable fields of one type
-- are one field, a function of the column, as in the row.
use seemsim_esim_gateway.Prelude.{ℕ, String, Option}
use seemsim_esim_gateway.Prelude.Int.{ℤ}
use seemsim_esim_gateway.Models.Esim.{Esim, EsimStatusHistory, TextColumn, NumberColumn, TimeColumn}

-- `EsimOut`
pub record EsimOut : Type 0 where
  pub id : String
  pub iccid : String
  pub order_id : String
  pub status : String
  pub text : TextColumn → Option String
  pub number : NumberColumn → Option ℤ
  pub time : TimeColumn → Option ℕ
  pub created_at : ℕ

-- `EsimOut.model_validate(esim)`
abbrev pub esim_out : Esim → EsimOut
esim_out esim = record {
  id = esim.id;
  iccid = esim.iccid;
  order_id = esim.order_id;
  status = esim.status;
  text = esim.text;
  number = esim.number;
  time = esim.time;
  created_at = esim.created_at;
}

-- `EsimDetailOut`, which has the same fields.
pub record EsimDetailOut : Type 0 where
  pub esim : EsimOut

-- `EsimDetailOut.model_validate(esim)`
abbrev pub esim_detail : Esim → EsimDetailOut
esim_detail esim = record { esim = esim_out esim }

-- `EsimStatusOut`; the remaining data is in bytes.
pub record EsimStatusOut : Type 0 where
  pub iccid : String
  pub status : String
  pub data_usage_remaining_bytes : Option ℤ
  pub days_remaining : Option ℤ
  pub last_updated : ℕ

-- `EsimStatusHistoryOut`
pub record EsimStatusHistoryOut : Type 0 where
  pub previous_status : Option String
  pub new_status : String
  pub source : String
  pub recorded_at : ℕ

-- `EsimStatusHistoryOut.model_validate(h)`
abbrev pub history_out : EsimStatusHistory → EsimStatusHistoryOut
history_out h = record {
  previous_status = h.previous_status;
  new_status = h.new_status;
  source = h.source;
  recorded_at = h.recorded_at;
}
