-- ===== src/Sync/TextColumns.antt =====
-- Which field of the provider's record a text column holds after a merge.
use seemsim_esim_gateway.Prelude.{
  String, Option, none, some, List, ◌∷◌, if◌then◌else◌, ◌≡◌, refl, ap, ◌∙◌, arith, inl, inr,
}
use seemsim_esim_gateway.Python.Json.{Value, str, Object, get, truthy, ◌or◌}
use seemsim_esim_gateway.Python.Runtime.{Runtime, str_of, is_present}
use seemsim_esim_gateway.Python.Text.{split}
use seemsim_esim_gateway.Models.Esim.{
  Esim, TextColumn, NumberColumn, TimeColumn, provider_esim_tran_no, imsi, msisdn, smdp_address,
  matching_id, activation_code, qr_code_url, short_url, smdp_status, esim_status, pin, puk, apn,
  duration_unit, fup_policy,
}
use seemsim_esim_gateway.Exec.{ok, Result-cases}
use seemsim_esim_gateway.Db.{World}
use seemsim_esim_gateway.Providers.Base.{BaseEsimProvider}
use seemsim_esim_gateway.Sync.Fields.{set_int_if_present, set_time_or_keep}
use seemsim_esim_gateway.Sync.Merge.{
  set_columns, set_profile, set_parts, no_startswith, lpa_update, set_measures, set_status,
  update_esim,
}
use seemsim_esim_gateway.Sync.Columns.{text-set_if_present, updated, not_updated, unchanged_by}

-- The field of a provider's record that a column holds; the address and the matching identifier come
-- from the activation code.
abbrev pub source_field : TextColumn → Option String
source_field provider_esim_tran_no = some "esimTranNo"
source_field imsi = some "imsi"
source_field msisdn = some "msisdn"
source_field smdp_address = none
source_field matching_id = none
source_field activation_code = some "ac"
source_field qr_code_url = some "qrCodeUrl"
source_field short_url = some "shortUrl"
source_field smdp_status = some "smdpStatus"
source_field esim_status = some "esimStatus"
source_field pin = some "pin"
source_field puk = some "puk"
source_field apn = some "apn"
source_field duration_unit = some "durationUnit"
source_field fup_policy = some "fupPolicy"

-- The field where it is present and not blank, and the old value otherwise.
abbrev pub fresh_or_old : Runtime → Object → String → Option String → Option String
fresh_or_old rt entry name old =
    if is_present rt (get entry name) then some (str_of rt (get entry name)) else old

abbrev by_field : Runtime → Object → Option String → Option String → Option String
by_field rt entry none old = old
by_field rt entry (some name) old = fresh_or_old rt entry name old

text-set_profile :
    (rt : Runtime) (entry : Object) (e : Esim) (c : TextColumn)
    → (set_profile rt entry e).text c ≡ by_field rt entry (source_field c) (e.text c)
unfolding set_profile set_columns
text-set_profile rt entry e imsi = simp text-set_if_present
text-set_profile rt entry e _ = simp text-set_if_present

text-set_parts :
    (rt : Runtime) (parts : List String) (e : Esim) (c : TextColumn) {name : String}
    → source_field c ≡ some name
    → (set_parts rt parts e).text c ≡ e.text c
unfolding set_parts
text-set_parts rt (_ ∷ a ∷ m ∷ _) e smdp_address h = cc
text-set_parts rt (_ ∷ a ∷ m ∷ _) e matching_id h = cc
text-set_parts rt (_ ∷ a ∷ m ∷ _) e _ h = simp text-set_if_present
text-set_parts rt _ e c h = refl

text-lpa :
    (rt : Runtime) (v : Value) (e : Esim) {e' : Esim} (c : TextColumn) {name : String}
    → lpa_update rt v e ≡ ok e'
    → source_field c ≡ some name
    → e'.text c ≡ e.text c
unfolding lpa_update
text-lpa rt (str ac) e c p h = ground (arith, text-set_parts rt (split b'$' ac) e c h)
text-lpa rt v e {e'} c p h = rw (unchanged_by e e' (truthy v) no_startswith p)

text-set_int : (c : NumberColumn) (v : Value) (e : Esim) → (set_int_if_present c v e).text ≡ e.text
unfolding set_int_if_present
text-set_int c v e = ground arith

text-set_time :
    (rt : Runtime) (c : TimeColumn) (v : Value) (e : Esim)
    → (set_time_or_keep rt c v e).text ≡ e.text
unfolding set_time_or_keep
text-set_time rt c v e = refl

text-set_measures :
    (rt : Runtime) (entry : Object) (e : Esim) → (set_measures rt entry e).text ≡ e.text
unfolding set_measures
text-set_measures rt entry e = simp (text-set_int, text-set_time)

text-set_status : (rt : Runtime) (entry : Object) (e : Esim) → (set_status rt entry e).text ≡ e.text
unfolding set_status
text-set_status rt entry e = refl

-- Where the update of an eSIM from a provider's record returns, each of the thirteen text columns that
-- come from a field of the record holds that field as text where it is present and not blank, and its
-- old value otherwise.
pub text-update_esim :
    (rt : Runtime) (provider : BaseEsimProvider) (e : Esim) (entry : Object) (w : World) {e' : Esim}
    → (update_esim rt provider e entry w).0 ≡ ok e'
    → (c : TextColumn) (name : String) → source_field c ≡ some name
    → e'.text c ≡ fresh_or_old rt entry name (e.text c)
text-update_esim rt provider e entry w {e'} h c name s =
    elim (Result-cases (lpa_update rt (get entry "ac" or str "") (set_profile rt entry e))) [
      | inl (a, p) ↦
          ap (λ (x : Esim). x.text c) (updated rt provider e entry w a p h)
          ∙ ap (λ f. f c) (text-set_status rt entry (set_measures rt entry a))
          ∙ ap (λ f. f c) (text-set_measures rt entry a)
          ∙ text-lpa rt _ _ c p s
          ∙ text-set_profile rt entry e c
          ∙ ap (λ o. by_field rt entry o (e.text c)) s
      | inr (x, p) ↦ absurd (not_updated rt provider e entry w x p h)
    ]
