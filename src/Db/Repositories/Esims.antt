-- ===== src/Db/Repositories/Esims.antt =====
-- app/repositories/esim.py.
use seemsim_esim_gateway.Prelude.{
  String, Option, none, some, List, [], ◌∷◌, ◌++◌, select_where, if◌then◌else◌, ◌==◌, leb,
}
use seemsim_esim_gateway.Errors.{builtin}
use seemsim_esim_gateway.Models.Esim.{Esim, EsimStatusHistory}
use seemsim_esim_gateway.Exec.{ok, err, gets, lift, ◌>>=◌, ◌>>◌, pure}
use seemsim_esim_gateway.Db.{M, modify_tables}
use seemsim_esim_gateway.Db.Table.{find_row, update_row, scalar_one_or_none}

abbrev pub esim_key : Esim → String
esim_key e = e.id

abbrev pub set_esims : (List Esim → List Esim) → M (Unit {0})
set_esims f = modify_tables (λ t. record t { esims = f t.esims })

abbrev pub with_iccid : String → List Esim → List Esim
with_iccid iccid = select_where (λ e. e.iccid == iccid)

-- The flush of a new row, under the unique constraint on `iccid`.
unfoldable pub create : Esim → M Esim
create esim w = elim (with_iccid esim.iccid w.esims) [
  | [] ↦ (ok esim, record w { tables = record w.tables { esims = w.esims ++ esim ∷ [] } })
  | _ ∷ _ ↦ (err (builtin "IntegrityError" "UNIQUE constraint failed: esims.iccid"), w)
]

-- `EsimRepository.get_by_id`
unfoldable pub get_by_id : String → M (Option Esim)
get_by_id esim_id = gets (λ w. find_row esim_key esim_id w.esims)

-- `EsimRepository.get_by_iccid`
unfoldable pub get_by_iccid : String → M (Option Esim)
get_by_iccid iccid = do
  rows ← gets (λ w. w.esims)
  lift (scalar_one_or_none (with_iccid iccid rows))

-- `EsimRepository.get_by_iccid_locked`: the read, in a process of its own.
unfoldable pub get_by_iccid_locked : String → M (Option Esim)
unfolding get_by_iccid
get_by_iccid_locked iccid = get_by_iccid iccid

-- `EsimRepository.get_by_order_id`
unfoldable pub get_by_order_id : String → M (List Esim)
get_by_order_id order_id = do
  rows ← gets (λ w. w.esims)
  pure (select_where (λ e. e.order_id == order_id) rows)

-- An attribute of the object is set: the row with its identifier changes.
unfoldable pub mutate : String → (Esim → Esim) → M (Unit {0})
mutate esim_id f = set_esims (update_row esim_key esim_id f)

-- `EsimRepository.update_status`
unfoldable pub update_status : String → String → M (Option Esim)
unfolding get_by_id mutate
update_status esim_id status = do
  found ← get_by_id esim_id
  elim found [
    | none ↦ pure none
    | some esim ↦ do mutate esim_id (λ e. record e { status = status }); get_by_id esim_id
  ]

-- `EsimRepository.add_status_history`
unfoldable pub add_status_history : EsimStatusHistory → M EsimStatusHistory
add_status_history history = do
  modify_tables (λ t. record t { esim_status_history = t.esim_status_history ++ history ∷ [] })
  pure history

insert_latest : EsimStatusHistory → List EsimStatusHistory → List EsimStatusHistory
insert_latest h [] = h ∷ []
insert_latest h (x ∷ xs) =
    let rest = insert_latest h xs in
    if leb x.recorded_at h.recorded_at then h ∷ x ∷ xs else x ∷ rest

-- `order_by(recorded_at.desc())`
order_by_latest : List EsimStatusHistory → List EsimStatusHistory
unfolding insert_latest
order_by_latest [] = []
order_by_latest (h ∷ hs) = insert_latest h (order_by_latest hs)

-- `EsimRepository.get_status_history`
unfoldable pub get_status_history : String → M (List EsimStatusHistory)
unfolding order_by_latest
get_status_history esim_id = do
  rows ← gets (λ w. w.esim_status_history)
  pure (order_by_latest (select_where (λ h. h.esim_id == esim_id) rows))
