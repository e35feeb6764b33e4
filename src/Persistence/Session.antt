-- ===== src/Persistence/Session.antt =====
-- The state of a service method: the session's tables, and how often it has drawn from the
-- environment. `uuid.uuid4` and `datetime.now` are the environment's, one value for each draw.
use supply_chain_execution.Common.{Option, if◌then◌else◌, none, some, ℕ, ◌+◌}
use supply_chain_execution.Common.Int.{eqb_ℤ, pos, ℤ}
use supply_chain_execution.Core.Effect.{Action, ok}
use supply_chain_execution.Persistence.Models.Events.{AuditEntry, DomainEvent}
use supply_chain_execution.Persistence.Models.Fulfillment.{FulfillmentPlan, Order}
use supply_chain_execution.Persistence.Models.Inventory.{
  InventoryBalance, InventoryReservation, SafetyStockPolicy,
}
use supply_chain_execution.Persistence.Models.Procurement.{PurchaseOrder, Supplier}
use supply_chain_execution.Persistence.Models.Transport.{Carrier, RoutePlan, Shipment, ShipmentStop}
use supply_chain_execution.Persistence.Models.Warehouse.{
  Warehouse, WarehouseLocation, WarehouseTask, WarehouseTransfer,
}
use supply_chain_execution.Persistence.Table.{Table, flush}

pub record Env : Type 0 where
  pub uuid4 : ℕ → ℕ
  pub now : ℕ → ℤ

pub record Session : Type 0 where
  pub balances : Table InventoryBalance
  pub reservations : Table InventoryReservation
  pub policies : Table SafetyStockPolicy
  pub warehouses : Table Warehouse
  pub locations : Table WarehouseLocation
  pub tasks : Table WarehouseTask
  pub transfers : Table WarehouseTransfer
  pub purchase_orders : Table PurchaseOrder
  pub suppliers : Table Supplier
  pub events : Table DomainEvent
  pub audits : Table AuditEntry
  pub shipments : Table Shipment
  pub stops : Table ShipmentStop
  pub carriers : Table Carrier
  pub route_plans : Table RoutePlan
  pub orders : Table Order
  pub plans : Table FulfillmentPlan
  pub draws : ℕ

abbrev pub Db : Type 0 → Type 0
Db A = Action Session A

abbrev pub draw_uuid : Env → Db ℕ
draw_uuid env s = (ok (env.uuid4 s.draws), record s { draws = s.draws + 1 })

abbrev pub draw_now : Env → Db ℤ
draw_now env s = (ok (env.now s.draws), record s { draws = s.draws + 1 })

-- `session.flush()` writes every table.
unfoldable pub flush_all : Session → Session
flush_all s = record {
  balances = flush s.balances;
  reservations = flush s.reservations;
  policies = flush s.policies;
  warehouses = flush s.warehouses;
  locations = flush s.locations;
  tasks = flush s.tasks;
  transfers = flush s.transfers;
  purchase_orders = flush s.purchase_orders;
  suppliers = flush s.suppliers;
  events = flush s.events;
  audits = flush s.audits;
  shipments = flush s.shipments;
  stops = flush s.stops;
  carriers = flush s.carriers;
  route_plans = flush s.route_plans;
  orders = flush s.orders;
  plans = flush s.plans;
  draws = s.draws;
}

-- `timedelta(minutes=n)`, in microseconds.
abbrev pub minute : ℕ
minute = 60_000_000

-- A nullable quantity is falsy when it is missing or zero.
abbrev pub truthy_or : Option ℤ → ℤ → ℤ
truthy_or none d = d
truthy_or (some n) d = if eqb_ℤ n (pos 0) then d else n
