-- ===== src/Tests/WarehousingTests.antt =====
-- Transfers, receiving, putaway and counts at concrete inputs.
use supply_chain_execution.Common.{[], arith, false, none, refl, some, true, ℕ, ◌∷◌, ◌≡◌, ◌≢◌}
use supply_chain_execution.Common.Int.{pos, ℤ, ◌+ℤ◌, ◌-ℤ◌}
use supply_chain_execution.Core.Effect.{ok}
use supply_chain_execution.Inventory.Stock.{IsSynced}
use supply_chain_execution.Persistence.Models.Inventory.{InventoryBalance, available}
use supply_chain_execution.Persistence.Models.Warehouse.{
  TransferStatus, WarehouseLocation, WarehouseTransfer,
}
use supply_chain_execution.Persistence.Queries.Inventory.{add_balance, get_balance, put_balance}
use supply_chain_execution.Persistence.Session.{Session}
use supply_chain_execution.Persistence.Table.{put, select}
use supply_chain_execution.Tests.Samples.{env, stock, stocked, stored_row}
use supply_chain_execution.Warehousing.CycleCount.{CycleCountLine, adjust_line}
use supply_chain_execution.Warehousing.CycleCount.Adjustments.{adjust_line-on_hand, on_hand_total}
use supply_chain_execution.Warehousing.Inbound.{take_in_found, update_inventory}
use supply_chain_execution.Warehousing.Inbound.Stock.{
  uncommitted_total, update_inventory-uncommitted,
}
use supply_chain_execution.Warehousing.Picking.{find_pick_location}
use supply_chain_execution.Warehousing.Picking.Pick.{HasEnough, find_pick_location-HasEnough}
use supply_chain_execution.Warehousing.Putaway.{assign_locations}
use supply_chain_execution.Warehousing.Putaway.Plan.{
  Fits, IsSpent, assign_locations-total, assigned,
}
use supply_chain_execution.Warehousing.Transfers.{
  TransferRequest, credit_found, initiate_transfer, receive_units,
}
use supply_chain_execution.Warehousing.Transfers.Arrival.{
  in_transit_at, on_hand_at, receive_units-moves, share_of,
}
use supply_chain_execution.Warehousing.Transfers.Counters.{initiate_transfer-owned, owned_total}

abbrev move : TransferRequest
move = record {
  source_warehouse_id = 1;
  destination_warehouse_id = 2;
  sku_id = 7;
  quantity = pos 4;
  scheduled_ship_date = none;
}

initiate_transfer-owned_example :
    owned_total (initiate_transfer env move stocked).1 ≡ owned_total stocked
initiate_transfer-owned_example = initiate_transfer-owned env move stocked (tt, tt)

abbrev shelf : ℕ → ℤ → WarehouseLocation
shelf id capacity = record {
  id = id;
  warehouse_id = 1;
  zone = "A";
  capacity_units = some capacity;
  is_pickable = true;
}

assign_locations-total_example :
    (assigned (assign_locations (shelf 8 (pos 6) ∷ shelf 9 (pos 3) ∷ []) (pos 20)).0
        +ℤ (assign_locations (shelf 8 (pos 6) ∷ shelf 9 (pos 3) ∷ []) (pos 20)).1
      ≡ pos 20)
    × Fits
        (shelf 8 (pos 6) ∷ shelf 9 (pos 3) ∷ [])
        (assign_locations (shelf 8 (pos 6) ∷ shelf 9 (pos 3) ∷ []) (pos 20)).0
    × IsSpent
        (shelf 8 (pos 6) ∷ shelf 9 (pos 3) ∷ [])
        (assign_locations (shelf 8 (pos 6) ∷ shelf 9 (pos 3) ∷ []) (pos 20))
assign_locations-total_example =
    assign_locations-total (shelf 8 (pos 6) ∷ shelf 9 (pos 3) ∷ []) (pos 20)

took_in :
    update_inventory env 1 7 (pos 7) (pos 3) stocked
    ≡ (ok tt, (update_inventory env 1 7 (pos 7) (pos 3) stocked).1)
unfolding update_inventory take_in_found get_balance select put_balance
took_in = refl

update_inventory-uncommitted_example :
    uncommitted_total (update_inventory env 1 7 (pos 7) (pos 3) stocked).1 +ℤ pos 3
    ≡ uncommitted_total stocked +ℤ pos 7
update_inventory-uncommitted_example =
    update_inventory-uncommitted env 1 7 (pos 7) (pos 3) stocked (tt, tt)
      (update_inventory env 1 7 (pos 7) (pos 3) stocked).1 took_in

-- Twelve units on shelf 8, counted as none.
abbrev shelved : InventoryBalance
shelved = record stock { location_id = some 8 }

abbrev counted_none : CycleCountLine
counted_none = record {
  location_id = 8;
  sku_id = 7;
  expected_quantity = pos 12;
  counted_quantity = some (pos 0);
}

abbrev shelf_session : Session
shelf_session = record stocked { balances = stored_row shelved ∷ [] }

shelved_found : get_balance 1 7 (some 8) shelf_session ≡ (ok (some shelved), shelf_session)
unfolding get_balance select
shelved_found = refl

adjust_line-on_hand_example :
    (◌≢◌ {A = ℤ} (pos 0) (pos 0)
      → on_hand_total (adjust_line env (some none) false 1 counted_none (pos 0) shelf_session).1
          +ℤ pos 12
        ≡ on_hand_total shelf_session +ℤ pos 0)
    × (pos 0 ≡ pos 0
        → on_hand_total (adjust_line env (some none) false 1 counted_none (pos 0) shelf_session).1
          ≡ on_hand_total shelf_session)
adjust_line-on_hand_example =
    adjust_line-on_hand env (some none) false 1 counted_none (pos 0) (pos 0) shelved shelf_session
      (tt, tt) refl shelved_found

shelf_chosen :
    find_pick_location 1 7 (pos 5) (shelf 9 (pos 3) ∷ shelf 8 (pos 6) ∷ []) shelf_session
    ≡ (ok (some (shelf 8 (pos 6))), shelf_session)
unfolding find_pick_location get_balance select available ◌-ℤ◌
shelf_chosen = refl

find_pick_location-HasEnough_example :
    HasEnough 1 7 (pos 5) 8 shelf_session × (shelf_session ≡ shelf_session)
find_pick_location-HasEnough_example =
    find_pick_location-HasEnough 1 7 (pos 5) (shelf 9 (pos 3) ∷ shelf 8 (pos 6) ∷ [])
      (shelf 8 (pos 6)) shelf_session shelf_session shelf_chosen

-- Four of the units of warehouse 1 are on their way to warehouse 2, which has none yet.
abbrev sender : InventoryBalance
sender = record stock { on_hand = pos 8; in_transit = pos 4 }

abbrev under_way : Session
under_way = record stocked { balances = stored_row sender ∷ [] }

abbrev sent : WarehouseTransfer
sent = record {
  id = 70;
  source_warehouse_id = 1;
  destination_warehouse_id = 2;
  status = TransferStatus.shipped;
  sku_id = 7;
  quantity = pos 4;
  quantity_shipped = pos 4;
  quantity_received = pos 0;
  scheduled_ship_date = none;
}

sender_found : get_balance 1 7 none under_way ≡ (ok (some sender), under_way)
unfolding get_balance select
sender_found = refl

units_received_once :
    receive_units env sent (pos 4) under_way ≡ (ok tt, (receive_units env sent (pos 4) under_way).1)
unfolding receive_units get_balance select put_balance put credit_found add_balance
units_received_once = refl

under_way-IsSynced : IsSynced under_way.balances
under_way-IsSynced = ((refl, refl, refl), tt)

receive_units-moves_example :
    (in_transit_at 1 7 (receive_units env sent (pos 4) under_way).1 +ℤ share_of 1 1 (pos 4)
      ≡ in_transit_at 1 7 under_way)
    × (on_hand_at 1 7 (receive_units env sent (pos 4) under_way).1
        ≡ on_hand_at 1 7 under_way +ℤ share_of 2 1 (pos 4))
receive_units-moves_example =
    receive_units-moves env sent (pos 4) sender under_way
      (receive_units env sent (pos 4) under_way).1 (tt, tt) under_way-IsSynced sender_found
      (omega arith) (omega arith) units_received_once 1
