-- ===== src/Sync/History.antt =====
-- The audit trail of `sync_order` of state_sync.py.
use seemsim_esim_gateway.Prelude.{
  ℕ, String, Bool, true, false, not, ◌||◌, Option, none, some, [], ◌∷◌, ◌++◌, ◌==◌, ◌≡◌, refl, ap,
  arith, eq_refl, Bool-cases, inl, inr,
}
use seemsim_esim_gateway.Python.Json.{Value, dict, Array, nil, cons, Object, get, truthy}
use seemsim_esim_gateway.Python.Runtime.{Runtime, str_or_empty}
use seemsim_esim_gateway.Models.{ProviderOrder, OrderStateHistory}
use seemsim_esim_gateway.Exec.{Result, ok, err, pure}
use seemsim_esim_gateway.Exec.Yields.{Yields, Yields-if, Yields-lift}
use seemsim_esim_gateway.Db.{World}
use seemsim_esim_gateway.Db.Repositories.Orders
use seemsim_esim_gateway.Db.Repositories.Orders.{column_is}
use seemsim_esim_gateway.Providers.Base.{BaseEsimProvider}
use seemsim_esim_gateway.Sync.Order.{
  SyncResult, unchanged, as_dict, as_list, stamped, apply_primary, has_changed, merge_all,
  state_row, record_state, merge_list, merge_reported, merge_query, after_query, sync_by,
  sync_order,
}
use seemsim_esim_gateway.Sync.Frame.{others, merge_all-Same}

abbrev pub same_optional : Option String → Option String → Bool
same_optional none none = true
same_optional none (some t) = false
same_optional (some s) none = false
same_optional (some s) (some t) = s == t

-- The row that describes the step from one state of an order to another.
abbrev pub Describes : OrderStateHistory → ProviderOrder → ProviderOrder → String → Type 0
Describes x old new source =
    (x.order_id ≡ old.id)
    × (x.old_status ≡ some old.status)
    × (x.new_status ≡ some new.status)
    × (x.old_provider_status ≡ old.provider_status)
    × (x.new_provider_status ≡ new.provider_status)
    × (x.source ≡ source)

abbrev pub differs : ProviderOrder → ProviderOrder → Bool
differs old new =
    not (old.status == new.status) || not (same_optional old.provider_status new.provider_status)

-- Either the result reports a change, a status differs, and one row was added that describes the
-- change; or it reports none, both statuses are the old ones, and no row was added.
pub data Audited (old : ProviderOrder) (source : String) (r : SyncResult) (w w' : World)
    : Type 0 where
  recorded :
      (x : OrderStateHistory)
      → r.state_changed ≡ true
      → differs old r.order ≡ true
      → w'.order_state_history ≡ w.order_state_history ++ x ∷ []
      → Describes x old r.order source
      → Audited old source r w w'
  unrecorded :
      r.state_changed ≡ false
      → differs old r.order ≡ false
      → w'.order_state_history ≡ w.order_state_history
      → Audited old source r w w'

pub same_optional_refl : (o : Option String) → same_optional o o ≡ true
same_optional_refl none = refl
same_optional_refl (some s) = eq_refl s

-- A result that leaves the order's statuses alone, in a world with the same audit trail.
unchanged-Audited :
    (order new : ProviderOrder) (source : String) (r : SyncResult) (w w' : World)
    → r ≡ unchanged new
    → new.status ≡ order.status
    → new.provider_status ≡ order.provider_status
    → w'.order_state_history ≡ w.order_state_history
    → Audited order source r w w'
unchanged-Audited order new source r w w' e p q h =
    unrecorded (ground arith)
      (ground (arith, eq_refl order.status, same_optional_refl order.provider_status)) h

module _ (rt : Runtime) (provider : BaseEsimProvider) (source : String) where
  history-merge_all :
      (order : ProviderOrder) (records : Array) (w : World)
      → (merge_all rt provider order records source w).1.order_state_history ≡ w.order_state_history
  history-merge_all order records w =
      ap (λ t. t.1) ((merge_all-Same (others w) rt provider order records source).at w refl)

  merge_list-changed :
      (order : ProviderOrder) (query primary : Object) (rest : Array) (w : World) {r : SyncResult}
      → has_changed order
          (apply_primary rt primary order)
          (str_or_empty rt (get primary "esimStatus"))
        ≡ true
      → (merge_list rt provider order query (cons (dict primary) rest) source w).0 ≡ ok r
      → Audited order source r w
          (merge_list rt provider order query (cons (dict primary) rest) source w).1
  unfolding merge_list Orders.mutate Orders.add_state_history
  merge_list-changed order query primary rest w {r} c h =
      let new = apply_primary rt primary order in
      let raw = str_or_empty rt (get primary "esimStatus") in
      let w₁ = (Orders.mutate order.id (λ _. new) w).1 in
      let w₂ = (record_state rt provider order new raw query source w₁).1 in
      let kept = history-merge_all new (cons (dict primary) rest) w₂ in
      recorded (state_row (rt.uuid4 w.drawn) order new raw query source) (ground (arith, kept))
        (ground (arith, kept)) (ground (arith, kept)) (ground (arith, kept))

  merge_list-unchanged :
      (order : ProviderOrder) (query primary : Object) (rest : Array) (w : World) {r : SyncResult}
      → has_changed order
          (apply_primary rt primary order)
          (str_or_empty rt (get primary "esimStatus"))
        ≡ false
      → (merge_list rt provider order query (cons (dict primary) rest) source w).0 ≡ ok r
      → Audited order source r w
          (merge_list rt provider order query (cons (dict primary) rest) source w).1
  unfolding merge_list Orders.mutate
  merge_list-unchanged order query primary rest w {r} c h =
      let new = apply_primary rt primary order in
      let w₁ = (Orders.mutate order.id (λ _. new) w).1 in
      let kept = history-merge_all new (cons (dict primary) rest) w₁ in
      unrecorded (ground (arith, kept)) (ground (arith, kept)) (ground (arith, kept))

  merge_list-Audited :
      (order : ProviderOrder) (query : Object) (records : Array) (w : World) {r : SyncResult}
      → (merge_list rt provider order query records source w).0 ≡ ok r
      → Audited order source r w (merge_list rt provider order query records source w).1
  merge_list-Audited order query nil w h = absurd (unfold merge_list in cc)
  merge_list-Audited order query (cons (dict primary) rest) w h =
      elim (Bool-cases (
        has_changed order (apply_primary rt primary order)
          (str_or_empty rt (get primary "esimStatus")))) [
            | inl c ↦ merge_list-changed order query primary rest w c h
            | inr c ↦ merge_list-unchanged order query primary rest w c h
          ]
  merge_list-Audited order query (cons _ rest) w h = absurd (unfold merge_list in cc)

  abbrev Q : ProviderOrder → World → SyncResult → World → Type 0
  Q order w r w' = Audited order source r w w'

  pure-Audited :
      (order new : ProviderOrder)
      → new.status ≡ order.status
      → new.provider_status ≡ order.provider_status
      → Yields (Q order) (pure (unchanged new))
  pure-Audited order new p q = record {
    at = λ w r h. unchanged-Audited order new source r w w (ground arith) p q refl;
  }

  merge_reported-Audited :
      (order : ProviderOrder) (query : Object)
      → Yields (Q order) (merge_reported rt provider order query source)
  unfolding merge_reported
  merge_reported-Audited order query =
      Yields-if (truthy (get query "esimList")) _ _
        (Yields-lift (as_list (get query "esimList")) _
          λ records _. record { at = λ w r h. merge_list-Audited order query records w h })
        (pure-Audited order order refl refl)

  -- The time of synchronisation and the payload are no part of what is audited.
  forget_stamp :
      (order : ProviderOrder) (now : ℕ) (query : Object) {r : SyncResult} {w w' : World}
      → Audited (stamped now query order) source r w w'
      → Audited order source r w w'
  forget_stamp order now query (recorded x c d e (f₀, f₁, f₂, f₃, f₄, f₅)) =
      recorded x c d e (f₀, f₁, f₂, f₃, f₄, f₅)
  forget_stamp order now query (unrecorded c d e) = unrecorded c d e

  rebase :
      {order : ProviderOrder} {r : SyncResult} {w₁ w₂ w' : World}
      → w₁.order_state_history ≡ w₂.order_state_history
      → Audited order source r w₁ w'
      → Audited order source r w₂ w'
  rebase h (recorded x c d e f) = recorded x c d (ground arith) f
  rebase h (unrecorded c d e) = unrecorded c d (ground arith)

  merge_query-Audited :
      (order : ProviderOrder) (query : Value)
      → Yields (Q order) (merge_query rt provider order query source)
  unfolding merge_query Orders.mutate
  merge_query-Audited order query = Yields-lift (as_dict query) _ λ o _. record {
    at = λ w r h. rebase refl (
        forget_stamp order (rt.utc_now w.reads) o
          ((merge_reported-Audited (stamped (rt.utc_now w.reads) o order) o).at _ r h));
  }

  after_query-Audited :
      (order : ProviderOrder) (answer : Result Value)
      → Yields (Q order) (after_query rt provider order source answer)
  unfolding after_query
  after_query-Audited order (err e) = pure-Audited order order refl refl
  after_query-Audited order (ok query) = merge_query-Audited order query

  sync_by-Audited :
      (number : Option String) (order : ProviderOrder)
      → Yields (Q order) (sync_by rt provider number order source)
  unfolding sync_by
  sync_by-Audited none order = pure-Audited order order refl refl
  sync_by-Audited (some number) order =
      Yields-if (number == "") _ _ (pure-Audited order order refl refl) (record {
        at = λ w r h.
            rebase refl
              ((after_query-Audited order (provider.query_order_full w.exchanges number)).at _ r h);
      })

  -- Where synchronisation returns, its result is audited: it reports a change exactly if the status
  -- or the provider's status of the returned order differs from the old one, and then one row, which
  -- describes the step, was added to the order history; otherwise the history is unchanged.
  pub sync_order-Audited :
      (order : ProviderOrder) (w : World) {r : SyncResult}
      → (sync_order rt provider order source w).0 ≡ ok r
      → Audited order source r w (sync_order rt provider order source w).1
  unfolding sync_order
  sync_order-Audited order w {r} h = (sync_by-Audited order.provider_order_no order).at w r h
