-- ===== src/Sync/Columns.antt =====
-- The columns of an eSIM across the update of `_merge_esim_record` of state_sync.py.
use seemsim_esim_gateway.Prelude.{
  String, Bool, true, false, ◌&&◌, none, some, List, [], ◌∷◌, if◌then◌else◌, ◌≡◌, ◌≢◌, refl, arith,
  inl, inr,
}
use seemsim_esim_gateway.Python.Json.{Value, str, Object, get, truthy, ◌or◌}
use seemsim_esim_gateway.Python.Runtime.{Runtime, str_of, is_present}
use seemsim_esim_gateway.Python.Text.{starts_with, split}
use seemsim_esim_gateway.Models.Esim.{
  Esim, TextColumn, NumberColumn, TimeColumn, same_text, same_time, smdp_address, matching_id,
  activate_time, installation_time, expired_time,
}
use seemsim_esim_gateway.Errors.{Exception}
use seemsim_esim_gateway.Exec.{Result, ok, err, Result-cases}
use seemsim_esim_gateway.Db.{World}
use seemsim_esim_gateway.Providers.Base.{BaseEsimProvider}
use seemsim_esim_gateway.Sync.Fields.{set_if_present, set_int_if_present, set_time_or_keep}
use seemsim_esim_gateway.Sync.Merge.{
  profile_columns, set_columns, set_profile, set_parts, no_startswith, lpa_update, set_measures,
  set_status, update_esim,
}

-- Every column that had a value has one.
pub record NoLoss (e e' : Esim) : Type 0 where
  pub text : (c : TextColumn) → e.text c ≢ none → e'.text c ≢ none
  pub number : (c : NumberColumn) → e.number c ≢ none → e'.number c ≢ none
  pub time : (c : TimeColumn) → e.time c ≢ none → e'.time c ≢ none

NoLoss-refl : (e : Esim) → NoLoss e e
NoLoss-refl e = record { text = λ c h. h; number = λ c h. h; time = λ c h. h }

NoLoss-trans : {e f g : Esim} → NoLoss e f → NoLoss f g → NoLoss e g
NoLoss-trans p q = record {
  text = λ c h. q.text c (p.text c h);
  number = λ c h. q.number c (p.number c h);
  time = λ c h. q.time c (p.time c h);
}

-- `_set_if_present`, column by column.
pub text-set_if_present :
    (rt : Runtime) (c d : TextColumn) (v : Value) (e : Esim)
    → (set_if_present rt c v e).text d
      ≡ (if same_text c d && is_present rt v then some (str_of rt v) else e.text d)
unfolding set_if_present
text-set_if_present rt c d v e = ground arith

set_if_present-NoLoss :
    (rt : Runtime) (c : TextColumn) (v : Value) (e : Esim) → NoLoss e (set_if_present rt c v e)
unfolding set_if_present
set_if_present-NoLoss rt c v e = record {
  text = λ d h. ground arith;
  number = λ d h. ground arith;
  time = λ d h. ground arith;
}

set_int-NoLoss : (c : NumberColumn) (v : Value) (e : Esim) → NoLoss e (set_int_if_present c v e)
unfolding set_int_if_present
set_int-NoLoss c v e = record {
  text = λ d h. ground arith;
  number = λ d h. ground arith;
  time = λ d h. ground arith;
}

same_time-eq : (c d : TimeColumn) → same_time c d ≡ true → c ≡ d
same_time-eq activate_time activate_time h = refl
same_time-eq activate_time installation_time h = cc
same_time-eq activate_time expired_time h = cc
same_time-eq installation_time activate_time h = cc
same_time-eq installation_time installation_time h = refl
same_time-eq installation_time expired_time h = cc
same_time-eq expired_time activate_time h = cc
same_time-eq expired_time installation_time h = cc
same_time-eq expired_time expired_time h = refl

set_time-NoLoss :
    (rt : Runtime) (c : TimeColumn) (v : Value) (e : Esim) → NoLoss e (set_time_or_keep rt c v e)
unfolding set_time_or_keep
set_time-NoLoss rt c v e = record {
  text = λ d h. h;
  number = λ d h. h;
  time = λ d h. ground (arith, same_time-eq c d);
}

set_columns-NoLoss :
    (rt : Runtime) (entry : Object) (columns : List (TextColumn × String)) (e : Esim)
    → NoLoss e (set_columns rt entry columns e)
unfolding set_columns
set_columns-NoLoss rt entry [] e = NoLoss-refl e
set_columns-NoLoss rt entry ((c, name) ∷ rest) e =
    NoLoss-trans (set_if_present-NoLoss rt c (get entry name) e)
      (set_columns-NoLoss rt entry rest (set_if_present rt c (get entry name) e))

set_profile-NoLoss : (rt : Runtime) (entry : Object) (e : Esim) → NoLoss e (set_profile rt entry e)
unfolding set_profile
set_profile-NoLoss rt entry e = set_columns-NoLoss rt entry profile_columns e

set_parts-NoLoss : (rt : Runtime) (parts : List String) (e : Esim) → NoLoss e (set_parts rt parts e)
unfolding set_parts
set_parts-NoLoss rt (_ ∷ a ∷ m ∷ _) e =
    NoLoss-trans (set_if_present-NoLoss rt smdp_address (str a) e)
      (set_if_present-NoLoss rt matching_id (str m) _)
set_parts-NoLoss rt _ e = NoLoss-refl e

set_measures-NoLoss :
    (rt : Runtime) (entry : Object) (e : Esim) → NoLoss e (set_measures rt entry e)
unfolding set_measures
set_measures-NoLoss rt entry e = NoLoss-trans (set_int-NoLoss _ _ e) (
    NoLoss-trans (set_int-NoLoss _ _ _) (
      NoLoss-trans (set_int-NoLoss _ _ _) (
        NoLoss-trans (set_int-NoLoss _ _ _) (
          NoLoss-trans (set_time-NoLoss rt _ _ _)
            (NoLoss-trans (set_time-NoLoss rt _ _ _) (set_time-NoLoss rt _ _ _))))))

set_status-NoLoss : (rt : Runtime) (entry : Object) (e : Esim) → NoLoss e (set_status rt entry e)
unfolding set_status
set_status-NoLoss rt entry e = record { text = λ c h. h; number = λ c h. h; time = λ c h. h }

pub ok-injective : {a b : Esim} → ◌≡◌ {A = Result Esim} (ok a) (ok b) → a ≡ b
ok-injective h = cc

pub unchanged_by :
    (e e' : Esim) (b : Bool) (x : Exception) → (if b then err x else ok e) ≡ ok e' → e' ≡ e
unchanged_by e e' true x h = cc
unchanged_by e e' false x h = cc

lpa-NoLoss :
    (rt : Runtime) (v : Value) (e : Esim) {e' : Esim} → lpa_update rt v e ≡ ok e' → NoLoss e e'
unfolding lpa_update
lpa-NoLoss rt (str ac) e h = rw (← ok-injective h) (if-NoLoss (starts_with ac "LPA:"))
  where
    if-NoLoss : (b : Bool) → NoLoss e (if b then set_parts rt (split b'$' ac) e else e)
    if-NoLoss true = set_parts-NoLoss rt _ e
    if-NoLoss false = NoLoss-refl e
lpa-NoLoss rt v e {e'} h = rw (unchanged_by e e' (truthy v) no_startswith h) (NoLoss-refl e)

pub updated :
    (rt : Runtime) (provider : BaseEsimProvider) (e : Esim) (entry : Object) (w : World) (a : Esim)
    {e' : Esim}
    → lpa_update rt (get entry "ac" or str "") (set_profile rt entry e) ≡ ok a
    → (update_esim rt provider e entry w).0 ≡ ok e'
    → e' ≡ set_status rt entry (set_measures rt entry a)
unfolding update_esim
updated rt provider e entry w a p h = ground arith

pub not_updated :
    (rt : Runtime) (provider : BaseEsimProvider) (e : Esim) (entry : Object) (w : World)
    (x : Exception) {e' : Esim}
    → lpa_update rt (get entry "ac" or str "") (set_profile rt entry e) ≡ err x
    → (update_esim rt provider e entry w).0 ≡ ok e'
    → ⊥
unfolding update_esim
not_updated rt provider e entry w x p h = ground arith

-- Where the update of an eSIM from a provider's record returns, no text, number or time of the eSIM
-- that was known has become null.
pub update_esim-NoLoss :
    (rt : Runtime) (provider : BaseEsimProvider) (e : Esim) (entry : Object) (w : World) {e' : Esim}
    → (update_esim rt provider e entry w).0 ≡ ok e'
    → NoLoss e e'
update_esim-NoLoss rt provider e entry w {e'} h =
    elim (Result-cases (lpa_update rt (get entry "ac" or str "") (set_profile rt entry e))) [
      | inl (a, p) ↦ rw (updated rt provider e entry w a p h) (
          NoLoss-trans (set_profile-NoLoss rt entry e) (
            NoLoss-trans (lpa-NoLoss rt _ _ p)
              (NoLoss-trans (set_measures-NoLoss rt entry a) (set_status-NoLoss rt entry _))))
      | inr (x, p) ↦ absurd (not_updated rt provider e entry w x p h)
    ]
