-- ===== src/Tests/MigrationRuns.antt =====
-- The migrations, up and down again from an empty database.
use seemsim_esim_gateway.Prelude.{[], ◌++◌, ◌≡◌, refl}
use seemsim_esim_gateway.Exec.{ok}
use seemsim_esim_gateway.Migrations.Operations.{run}
use seemsim_esim_gateway.Migrations.Initial as Initial
use seemsim_esim_gateway.Migrations.StateSync as StateSync
use seemsim_esim_gateway.Migrations.Instance.{tables}
use seemsim_esim_gateway.Migrations.Reversal.{downgrades-upgrades}
use seemsim_esim_gateway.Tests.Sample.{value_of}

abbrev migrated : tables.Schema
unfolding run seemsim_esim_gateway.Migrations.Tables.on_table
migrated = value_of (run tables (Initial.upgrade ++ StateSync.upgrade) []) []

downgrades-upgrades_example : run tables (StateSync.downgrade ++ Initial.downgrade) migrated ≡ ok []
unfolding run seemsim_esim_gateway.Migrations.Tables.on_table seemsim_esim_gateway.Db.Table.find_row
downgrades-upgrades_example = downgrades-upgrades tables [] migrated refl
