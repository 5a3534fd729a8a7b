-- ===== src/Sync/Heard.antt =====
-- What an answer of the provider makes of the statuses of an order: `sync_order` of state_sync.py.
use mathlib.Core.Path.{subst}
use seemsim_esim_gateway.Prelude.{
  ℕ, String, false, Option, none, some, if◌then◌else◌, ◌==◌, ◌≡◌, refl, ap, arith, Bool-cases, inl,
  inr,
}
use seemsim_esim_gateway.Python.Json.{Value, list, dict, Array, nil, cons, Object, get, truthy}
use seemsim_esim_gateway.Python.Runtime.{Runtime, str_or_empty}
use seemsim_esim_gateway.Models.{ProviderOrder}
use seemsim_esim_gateway.Exec.{Result, ok, err, pure}
use seemsim_esim_gateway.Exec.Yields.{Yields, Yields-lift}
use seemsim_esim_gateway.Db.{World}
use seemsim_esim_gateway.Db.Repositories.Orders
use seemsim_esim_gateway.Providers.Base.{BaseEsimProvider}
use seemsim_esim_gateway.Sync.Fields.{is_terminal, map_status}
use seemsim_esim_gateway.Sync.Order.{
  SyncResult, unchanged, as_dict, as_list, stamped, order_status_after, apply_primary, merge_list,
  merge_reported, merge_query, after_query, sync_by, has_changed,
}

-- The status after what was heard, if anything was.
abbrev pub status_from : Option String → ProviderOrder → String
status_from none order = order.status
status_from (some raw) order = order_status_after order.status raw

abbrev pub provider_status_from : Option String → ProviderOrder → Option String
provider_status_from none order = order.provider_status
provider_status_from (some raw) order = some raw

-- The returned order has the statuses that what was heard gives it.
pub record Follows (heard : Option String) (order : ProviderOrder) (r : SyncResult) : Type 0 where
  pub status_is : r.order.status ≡ status_from heard order
  pub provider_status_is : r.order.provider_status ≡ provider_status_from heard order
  pub number_is : r.order.provider_order_no ≡ order.provider_order_no

-- The time of synchronisation and the payload are no part of it.
restamped :
    (rep : Option String) (order : ProviderOrder) (now : ℕ) (o : Object) (r : SyncResult)
    → Follows rep (stamped now o order) r
    → Follows rep order r
restamped none order now o r f = record {
  status_is = f.status_is;
  provider_status_is = f.provider_status_is;
  number_is = f.number_is;
}
restamped (some raw) order now o r f = record {
  status_is = f.status_is;
  provider_status_is = f.provider_status_is;
  number_is = f.number_is;
}

-- A status that was taken over stays when it is heard again.
pub order_status_after-again :
    (old raw : String)
    → order_status_after (order_status_after old raw) raw ≡ order_status_after old raw
unfolding order_status_after
order_status_after-again old raw = elim (Bool-cases (is_terminal old)) [
  | inl e ↦ ground arith
  | inr e ↦ elim (Bool-cases (is_terminal (map_status raw))) [
    | inl d ↦ ground arith
    | inr d ↦ ground arith
  ]
]

module _ (rt : Runtime) (provider : BaseEsimProvider) where
  -- `esimStatus` of the primary record of an answer.
  abbrev pub primary_status : Value → Option String
  primary_status (list (cons (dict primary) others)) =
      some (str_or_empty rt (get primary "esimStatus"))
  primary_status _ = none

  abbrev pub heard_in : Result Value → Option String
  heard_in (ok (dict query)) = primary_status (get query "esimList")
  heard_in _ = none

  -- What the query for the number hears, in the given exchange.
  abbrev pub heard : Option String → ℕ → Option String
  heard none n = none
  heard (some number) n =
      if number == "" then none else heard_in (provider.query_order_full n number)

  module _ (source : String) where
    unchanged-Follows :
        (order new : ProviderOrder) (r : SyncResult)
        → r ≡ unchanged new
        → new.status ≡ order.status
        → new.provider_status ≡ order.provider_status
        → new.provider_order_no ≡ order.provider_order_no
        → Follows none order r
    unchanged-Follows order new r e p q n = record {
      status_is = ground arith;
      provider_status_is = ground arith;
      number_is = ground arith;
    }

    -- The order that is returned is the one that took over the primary record.
    order-merge_list :
        (order : ProviderOrder) (query primary : Object) (others : Array) (w : World)
        {r : SyncResult}
        → (merge_list rt provider order query (cons (dict primary) others) source w).0 ≡ ok r
        → r.order ≡ apply_primary rt primary order
    unfolding merge_list Orders.mutate
    order-merge_list order query primary others w {r} h =
        elim (Bool-cases (
          has_changed order (apply_primary rt primary order)
            (str_or_empty rt (get primary "esimStatus")))) [
              | inl c ↦ ground arith
              | inr c ↦ ground arith
            ]

    merge_list-Follows :
        (order : ProviderOrder) (query : Object) (records : Array) (w : World) {r : SyncResult}
        → (merge_list rt provider order query records source w).0 ≡ ok r
        → Follows (primary_status (list records)) order r
    unfolding apply_primary
    merge_list-Follows order query nil w h = absurd (unfold merge_list in cc)
    merge_list-Follows order query (cons (dict primary) others) w {r} h =
        let e = order-merge_list order query primary others w h in
        record {
          status_is = ap (λ o. o.status) e;
          provider_status_is = ap (λ o. o.provider_status) e;
          number_is = ap (λ o. o.provider_order_no) e;
        }
    merge_list-Follows order query (cons _ others) w h = absurd (unfold merge_list in cc)

    abbrev pub Q : Option String → ProviderOrder → World → SyncResult → World → Type 0
    Q rep order w r w' = Follows rep order r

    pure-Follows :
        (order new : ProviderOrder)
        → new.status ≡ order.status
        → new.provider_status ≡ order.provider_status
        → new.provider_order_no ≡ order.provider_order_no
        → Yields (Q none order) (pure (unchanged new))
    pure-Follows order new p q n = record {
      at = λ w r h. unchanged-Follows order new r (ground arith) p q n;
    }

    is_list : (v : Value) (records : Array) → as_list v ≡ ok records → list records ≡ v
    is_list (list a) records e = ground arith
    is_list _ records e = absurd (ground arith)

    not_heard : (v : Value) → truthy v ≡ false → none ≡ primary_status v
    not_heard (list nil) e = refl
    not_heard (list (cons v others)) e = absurd (ground arith)
    not_heard _ e = refl

    merge_reported-Follows :
        (order : ProviderOrder) (query : Object)
        → Yields
            (Q (primary_status (get query "esimList")) order)
            (merge_reported rt provider order query source)
    unfolding merge_reported
    merge_reported-Follows order query = elim (Bool-cases (truthy (get query "esimList"))) [
      | inl t ↦ rw t (
          Yields-lift (as_list (get query "esimList")) _ (λ records e. record {
            at = λ w r h.
                subst (λ v. Follows (primary_status v) order r)
                  (is_list (get query "esimList") records e)
                  (merge_list-Follows order query records w h);
          }))
      | inr f ↦ rw f (
          subst (λ rep. Yields (Q rep order) (pure (unchanged order)))
            (not_heard (get query "esimList") f) (pure-Follows order order refl refl refl))
    ]

    is_dict : (v : Value) (query : Object) → as_dict v ≡ ok query → dict query ≡ v
    is_dict (dict o) query e = ground arith
    is_dict _ query e = absurd (ground arith)

    merge_query-Follows :
        (order : ProviderOrder) (query : Value)
        → Yields (Q (heard_in (ok query)) order) (merge_query rt provider order query source)
    unfolding merge_query Orders.mutate
    merge_query-Follows order query = Yields-lift (as_dict query) _ λ o e. record {
      at = λ w r h.
          subst (λ v. Follows (heard_in (ok v)) order r) (is_dict query o e)
            (restamped (heard_in (ok (dict o))) order (rt.utc_now w.reads) o r
              ((merge_reported-Follows (stamped (rt.utc_now w.reads) o order) o).at _ r h));
    }

    after_query-Follows :
        (order : ProviderOrder) (answer : Result Value)
        → Yields (Q (heard_in answer) order) (after_query rt provider order source answer)
    unfolding after_query
    after_query-Follows order (err e) = pure-Follows order order refl refl refl
    after_query-Follows order (ok query) = merge_query-Follows order query

    pub sync_by-Follows :
        (number : Option String) (order : ProviderOrder) (w : World) (r : SyncResult)
        → (sync_by rt provider number order source w).0 ≡ ok r
        → Follows (heard number w.exchanges) order r
    unfolding sync_by
    sync_by-Follows none order w r h = (pure-Follows order order refl refl refl).at w r h
    sync_by-Follows (some number) order w r h = elim (Bool-cases (number == "")) [
      | inl e ↦ rw e ((pure-Follows order order refl refl refl).at w r (rw e at h))
      | inr e ↦ rw e (
          (after_query-Follows order (provider.query_order_full w.exchanges number)).at _ r
            (rw e at h))
    ]
