-- ===== src/Tests/OrdersTests.antt =====
-- Shipments and purchase orders at concrete inputs.
use supply_chain_execution.Common.{Option, [], arith, false, none, refl, some, true, ◌∷◌, ◌≡◌, ◌⊎◌}
use supply_chain_execution.Common.Int.{pos}
use supply_chain_execution.Core.Effect.{ok, raised}
use supply_chain_execution.Core.Exceptions.{shipment_state_error}
use supply_chain_execution.Core.Types.{PurchaseOrderStatus, ShipmentStatus}
use supply_chain_execution.Fulfillment.Shipments.{is_allowed, transition_state, valid_transitions}
use supply_chain_execution.Fulfillment.Shipments.Trail.{
  AllTracked, HasMoved, IsTracked, created, step, transition_state-AllTracked,
  transition_state-outcome,
}
use supply_chain_execution.Persistence.Models.Procurement.{
  LineStatus, PurchaseOrder, PurchaseOrderLine,
}
use supply_chain_execution.Persistence.Models.Transport.{Shipment, StateEntry}
use supply_chain_execution.Persistence.Queries.Transport.{shipment_id}
use supply_chain_execution.Persistence.Session.{Session}
use supply_chain_execution.Persistence.Table.{get, put}
use supply_chain_execution.Procurement.Orders.{record_receipt}
use supply_chain_execution.Procurement.Orders.Receipts.{AllSound, record_receipt-AllSound}
use supply_chain_execution.Tests.Samples.{empty_session, env, stored_row}

abbrev drafted : Shipment
drafted = record {
  id = 50;
  order_id = 3;
  warehouse_id = 1;
  carrier_id = none;
  origin_address = [];
  destination_address = [];
  total_weight_kg = none;
  total_packages = pos 1;
  scheduled_pickup = none;
  scheduled_delivery = none;
  consolidation_group_id = none;
  status = ShipmentStatus.draft;
  actual_delivery = none;
  state_history = record { status = ShipmentStatus.draft; timestamp = pos 1; previous = none } ∷ [];
  version = pos 1;
}

abbrev shipping : Session
shipping = record empty_session { shipments = stored_row drafted ∷ [] }

shipping-AllTracked : AllTracked shipping
shipping-AllTracked = (record { trail = created (pos 1); version = refl }, tt)

transition_state-AllTracked_example :
    AllTracked (transition_state env 50 ShipmentStatus.planned shipping).1
transition_state-AllTracked_example =
    transition_state-AllTracked env ShipmentStatus.planned 50 shipping shipping-AllTracked

transition_state-outcome_example :
    ((is_allowed ShipmentStatus.draft ShipmentStatus.planned ≡ false)
      × (transition_state env 50 ShipmentStatus.planned shipping ≡ (
        raised (shipment_state_error 50 ShipmentStatus.draft ShipmentStatus.planned),
        shipping,
      )))
    ⊎ ((is_allowed ShipmentStatus.draft ShipmentStatus.planned ≡ true)
        × ((y : Shipment) × ((transition_state env 50 ShipmentStatus.planned shipping).0 ≡ ok y)
            × ((transition_state env 50 ShipmentStatus.planned shipping).1.shipments
                ≡ put shipment_id y shipping.shipments)
            × HasMoved drafted ShipmentStatus.planned y))
unfolding get
transition_state-outcome_example =
    transition_state-outcome env ShipmentStatus.planned 50 drafted shipping refl

abbrev entry : ShipmentStatus → Option ShipmentStatus → StateEntry
entry status was = record { status = status; timestamp = pos 1; previous = was }

abbrev delivered_shipment : Shipment
delivered_shipment = record drafted {
  status = ShipmentStatus.delivered;
  state_history =
      entry ShipmentStatus.draft none
      ∷ entry ShipmentStatus.planned (some ShipmentStatus.draft)
      ∷ entry ShipmentStatus.label_generated (some ShipmentStatus.planned)
      ∷ entry ShipmentStatus.in_transit (some ShipmentStatus.label_generated)
      ∷ entry ShipmentStatus.delivered (some ShipmentStatus.in_transit)
      ∷ [];
  version = pos 5;
}

-- A history of five entries is a path.
delivered-IsTracked : IsTracked delivered_shipment
unfolding valid_transitions
delivered-IsTracked = record {
  trail =
      step _ _ _ (pos 1)
        (step _ _ _ (pos 1) (step _ _ _ (pos 1) (step _ _ _ (pos 1) (created (pos 1)) refl) refl)
          refl)
        refl;
  version = refl;
}

abbrev line : PurchaseOrderLine
line = record {
  id = 61;
  sku_id = 7;
  quantity_ordered = pos 10;
  quantity_received = pos 4;
  line_status = LineStatus.open_line;
}

abbrev order : PurchaseOrder
order = record {
  id = 60;
  po_number = "PO-1";
  supplier_id = 2;
  warehouse_id = 1;
  status = PurchaseOrderStatus.partially_received;
  expected_delivery = none;
  notes = none;
  lines = line ∷ [];
}

abbrev ordering : Session
ordering = record empty_session { purchase_orders = stored_row order ∷ [] }

record_receipt-AllSound_example :
    AllSound (record_receipt env (some none) 60 ((61, pos 6) ∷ []) ordering).1
record_receipt-AllSound_example =
    record_receipt-AllSound env (some none) ((61, pos 6) ∷ []) (omega arith, tt) 60 ordering
      ((omega arith, tt), tt)
