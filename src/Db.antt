-- ===== src/Db.antt =====
-- The state that the services share: the tables as the session sees them, and how far the runtime's
-- streams have been read. The session flushes before each query, so a query sees what was written.
pub mod Table
pub mod Repositories
use seemsim_esim_gateway.Prelude.{ℕ, ◌+◌, String, List}
use seemsim_esim_gateway.Python.Runtime.{Runtime}
use seemsim_esim_gateway.Models.{
  ProviderOrder, OrderStateHistory, OperationLog, ProviderWebhookEvent,
}
use seemsim_esim_gateway.Models.Esim.{Esim, EsimStatusHistory}
use seemsim_esim_gateway.Models.Product.{ProviderProduct, ProviderPackage}
use seemsim_esim_gateway.Exec.{Exec, Result, ok, err}

pub record Tables : Type 0 where
  pub orders : List ProviderOrder
  pub esims : List Esim
  pub order_state_history : List OrderStateHistory
  pub esim_status_history : List EsimStatusHistory
  pub operation_logs : List OperationLog
  pub webhook_events : List ProviderWebhookEvent
  pub products : List ProviderProduct
  pub packages : List ProviderPackage

pub record World : Type 0 where
  pub tables : Tables
  pub open tables use *
  -- how many identifiers were drawn, how often the clock was read, how many provider calls were made
  pub drawn : ℕ
  pub reads : ℕ
  pub exchanges : ℕ

abbrev pub M : Type 0 → Type 0
M A = Exec World A

-- `str(uuid.uuid4())`
abbrev pub uuid4 : Runtime → M String
uuid4 rt w = (ok (rt.uuid4 w.drawn), record w { drawn = w.drawn + 1 })

-- `datetime.now(UTC)`
abbrev pub utc_now : Runtime → M ℕ
utc_now rt w = (ok (rt.utc_now w.reads), record w { reads = w.reads + 1 })

-- `await self._provider.operation(…)`
abbrev pub call : {A : Type 0} → (ℕ → Result A) → M A
call operation w = (operation w.exchanges, record w { exchanges = w.exchanges + 1 })

abbrev pub modify_tables : (Tables → Tables) → M (Unit {0})
modify_tables f w = (ok tt, record w { tables = f w.tables })

-- app/core/database.py, `get_db_session` around a handler: an exception rolls the tables back.
unfoldable pub in_session : {A : Type 0} → M A → M A
in_session m w =
    let (r, w') = m w in
    elim r [ ok a ↦ (ok a, w') | err e ↦ (err e, record w' { tables = w.tables }) ]
