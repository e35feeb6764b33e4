-- ===== src/Warehousing/CycleCount.antt =====
-- src/nexusops/domain/warehouse/cycle_count.py
pub mod Adjustments
use mathlib.Core.Option
use supply_chain_execution.Common.{
  Bool, List, Option, [], any, false, filter, if◌then◌else◌, length, ltb, none, not, same_opt, some,
  true, ℕ, ◌&&◌, ◌++◌, ◌==◌, ◌∷◌,
}
use supply_chain_execution.Common.Int.{abs, eqb_ℤ, pos, sum_of, ℤ, ◌+ℤ◌, ◌-ℤ◌}
use supply_chain_execution.Core.Effect.{for_each, ok, or_raise, pure, raise_if, ◌>>=◌, ◌>>◌}
use supply_chain_execution.Core.Exceptions.{value_error}
use supply_chain_execution.Core.Types.{EventType, WarehouseTaskStatus, WarehouseTaskType}
use supply_chain_execution.Events.Bus.{EventBus, publish}
use supply_chain_execution.Persistence.Models.Events.{Json}
use supply_chain_execution.Persistence.Models.Inventory.{InventoryBalance}
use supply_chain_execution.Persistence.Queries.Events.{add_audit}
use supply_chain_execution.Persistence.Queries.Inventory.{
  get_balance, list_by_warehouse, put_balance,
}
use supply_chain_execution.Persistence.Queries.Warehouse.{add_task, location_id_of}
use supply_chain_execution.Persistence.Session.{Db, Env, draw_now, draw_uuid, truthy_or}
use supply_chain_execution.Persistence.Table.{get}

pub data CycleCountStatus : Type 0 where
  scheduled in_progress completed : CycleCountStatus
  variance_review adjusted cancelled : CycleCountStatus

pub record CycleCountLine : Type 0 where
  pub location_id : ℕ
  pub sku_id : ℕ
  pub expected_quantity : ℤ
  pub counted_quantity : Option ℤ

unfoldable pub variance : CycleCountLine → Option ℤ
variance l = Option.map (λ (n : ℤ). n -ℤ l.expected_quantity) l.counted_quantity

abbrev pub or_zero : Option ℤ → ℤ
or_zero none = pos 0
or_zero (some n) = n

unfoldable pub has_variance : CycleCountLine → Bool
has_variance l = not (eqb_ℤ (or_zero (variance l)) (pos 0))

pub record CycleCountSession : Type 0 where
  pub session_id : ℕ
  pub warehouse_id : ℕ
  pub status : CycleCountStatus
  pub lines : List CycleCountLine
  pub task_ids : List ℕ
  pub completed_at : Option ℤ

unfoldable pub total_variance : CycleCountSession → ℤ
total_variance c = sum_of (λ (l : CycleCountLine). or_zero (variance l)) c.lines

unfoldable pub lines_with_variance : CycleCountSession → List CycleCountLine
lines_with_variance c = filter has_variance c.lines

abbrev pub variance_threshold_review : ℕ
variance_threshold_review = 50

-- The line and the task of one balance.
unfoldable pub schedule_line :
    Env → ℕ → ℕ → InventoryBalance → CycleCountSession → Db CycleCountSession
schedule_line env warehouse location b c = do
  id ← draw_uuid env
  add_task (record {
    id = id;
    warehouse_id = warehouse;
    task_type = WarehouseTaskType.cycle_count;
    status = WarehouseTaskStatus.pending;
    priority = pos 5;
    assigned_to = none;
    source_location_id = some location;
    target_location_id = none;
    sku_id = some b.sku_id;
    quantity = some b.on_hand;
    reference_type = some "cycle_count";
    reference_id = some c.session_id;
    completed_at = none;
  })
  pure (record c {
    lines =
        c.lines
        ++ record {
          location_id = location;
          sku_id = b.sku_id;
          expected_quantity = b.on_hand;
          counted_quantity = none;
        }
          ∷ [];
    task_ids = c.task_ids ++ id ∷ [];
  })

-- The round of one location; a location that does not exist is passed over.
unfoldable pub schedule_location : Env → ℕ → ℕ → CycleCountSession → Db CycleCountSession
schedule_location env warehouse location c s = elim (get location_id_of location s.locations) [
  | none ↦ (ok c, s)
  | some _ ↦
      for_each (schedule_line env warehouse location)
        (filter (λ (b : InventoryBalance). same_opt b.location_id (some location))
          (list_by_warehouse warehouse s))
        c s
]

unfoldable pub schedule_count : Env → ℕ → List ℕ → Db CycleCountSession
schedule_count env warehouse locations = do
  id ← draw_uuid env
  for_each (schedule_location env warehouse) locations (record {
    session_id = id;
    warehouse_id = warehouse;
    status = CycleCountStatus.scheduled;
    lines = [];
    task_ids = [];
    completed_at = none;
  })

abbrev pub is_line_of : ℕ → ℕ → CycleCountLine → Bool
is_line_of location sku l = (l.location_id == location) && (l.sku_id == sku)

-- The assignment to the first line of the location and SKU; none where there is no such line.
unfoldable pub count_line : ℕ → ℕ → ℤ → List CycleCountLine → Option (List CycleCountLine)
count_line location sku counted [] = none
count_line location sku counted (l ∷ ls) =
    let rest = count_line location sku counted ls in
    if is_line_of location sku l
    then some (record l { counted_quantity = some counted } ∷ ls)
    else Option.map (λ (ls' : List CycleCountLine). l ∷ ls') rest

unfoldable pub record_count : ℕ → ℕ → ℤ → CycleCountSession → Db CycleCountSession
record_count location sku counted c = do
  lines ← or_raise (count_line location sku counted c.lines) value_error
  pure (record c { lines = lines; status = CycleCountStatus.in_progress })

-- `line.counted_quantity or balance.on_hand`: a count of 0 leaves the balance's own number.
abbrev pub adjust : CycleCountLine → InventoryBalance → InventoryBalance
adjust l b = record b {
  on_hand = truthy_or l.counted_quantity b.on_hand;
  version = b.version +ℤ pos 1;
}

-- The event of an adjustment; `override` tells whether the context has an override reason.
unfoldable pub publish_adjustment : Env → EventBus → Bool → ℕ → CycleCountLine → Db (Unit {0})
publish_adjustment env none override warehouse l = pure tt
publish_adjustment env (some redis) override warehouse l = do
  now ← draw_now env
  publish env redis (record {
    event_type = EventType.inventory_adjusted;
    aggregate_type = "inventory";
    aggregate_id = l.sku_id;
    payload =
        ("warehouse_id", Json.uuid warehouse)
        ∷ ("sku_id", Json.uuid l.sku_id)
        ∷ ("quantity_delta", Json.number (or_zero (variance l)))
        ∷ ("reason", Json.str "cycle_count")
        ∷ ("manual_override", Json.flag override)
        ∷ [];
    occurred_at = now;
  })
  pure tt

module _ (env : Env) (bus : EventBus) (override : Bool) where
  unfoldable pub adjust_found : ℕ → CycleCountLine → ℤ → Option InventoryBalance → Db ℤ
  adjust_found warehouse l count none = pure count
  adjust_found warehouse l count (some b) = do
    put_balance (adjust l b)
    add_audit (record {
      entity_id = l.sku_id;
      warehouse_id = warehouse;
      before = b.on_hand;
      after = truthy_or l.counted_quantity b.on_hand;
    })
    publish_adjustment env bus override warehouse l
    pure (count +ℤ pos 1)

  unfoldable pub adjust_line : ℕ → CycleCountLine → ℤ → Db ℤ
  adjust_line warehouse l count = do
    found ← get_balance warehouse l.sku_id (some l.location_id)
    adjust_found warehouse l count found

  unfoldable pub apply_adjustments : CycleCountSession → Db ℤ
  apply_adjustments c = for_each (adjust_line c.warehouse_id) (lines_with_variance c) (pos 0)

  abbrev pub is_uncounted : CycleCountLine → Bool
  is_uncounted l = elim l.counted_quantity [ none ↦ true | some _ ↦ false ]

  -- `max(abs(l.variance or 0) for l in lines)`
  abbrev pub max_variance : List CycleCountLine → ℕ
  max_variance [] = 0
  max_variance (l ∷ ls) =
      if ltb (max_variance ls) (abs (or_zero (variance l)))
      then abs (or_zero (variance l))
      else max_variance ls

  abbrev pub finish : CycleCountStatus → CycleCountSession → CycleCountSession
  finish status c = record c { status = status }

  unfoldable pub complete_session : CycleCountSession → Bool → Db CycleCountSession
  complete_session c auto_adjust = do
    raise_if (any is_uncounted c.lines) value_error
    now ← draw_now env
    let c' : CycleCountSession = record c { completed_at = some now }
    if length (lines_with_variance c') == 0
        then pure (finish CycleCountStatus.completed c')
        else if ltb variance_threshold_review (max_variance (lines_with_variance c'))
        then pure (finish CycleCountStatus.variance_review c')
        else if auto_adjust
        then apply_adjustments c' >> pure (finish CycleCountStatus.adjusted c')
        else pure (finish CycleCountStatus.variance_review c')
