-- ===== src/Api.antt =====
-- app/api/v1/orders.py: the mutation endpoints, with their idempotency keys, over the services.
pub mod Guarded
pub mod Orders
pub mod Replay
pub mod Catalog
pub mod Esims
pub mod OrderReads
pub mod Admin
pub mod Health
use seemsim_esim_gateway.Prelude.{ℕ, String}
use seemsim_esim_gateway.Exec.{Exec, Result, ok, err}
use seemsim_esim_gateway.Db.{World}

-- The keys in Redis and the state of the services.
pub record Gateway (K : Type 0) : Type 0 where
  pub keys : K
  pub world : World

pub record Reply : Type 0 where
  pub status : ℕ
  pub body : String

module _ {K A : Type 0} where
  abbrev pub on_keys : Exec K A → Exec (Gateway K) A
  on_keys m g = let (r, k) = m g.keys in (r, record g { keys = k })

  abbrev pub on_world : Exec World A → Exec (Gateway K) A
  on_world m g = let (r, w) = m g.world in (r, record g { world = w })

  -- app/core/database.py, `get_db_session` around an endpoint.
  unfoldable pub in_session : Exec (Gateway K) A → Exec (Gateway K) A
  in_session m g =
      let (r, g') = m g in
      elim r [
        | ok a ↦ (ok a, g')
        | err e ↦ (err e, record g' { world = record g'.world { tables = g.world.tables } })
      ]
