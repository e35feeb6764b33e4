-- ===== src/Lib.antt =====
-- A model of the back end of a supply chain execution platform (src/nexusops), and theorems about
-- it. The program keeps inventory balances, reservations, orders, shipments and transfers in a
-- database, and changes them through domain services.
--
-- The parts and how they interact. A service method is an action on a session (Core/Effect): it
-- reads and writes the session's tables and returns or raises, and what it wrote before it raised
-- stays written. The session (Persistence/Session, Persistence/Table) is that of db/session.py,
-- which is made with autoflush=False: a query tests the rows that the database holds, and returns
-- the session's objects, whose attributes may be ahead of their rows until the next flush. Python
-- integers are ℤ (Common/Int), ids are natural numbers, a time is a number of microseconds.
-- uuid.uuid4 and datetime.now are the environment's (Env), one value for each draw; floats are an
-- interface (Core/Float), and so are Python's mathematics (Transportation/Carriers, Routes), its
-- calendar (Transportation/Scheduling) and networkx (Core/Dependencies, Transportation/Routes);
-- a decimal is a number of units of its last place; event handlers, the Redis client, workflow
-- handlers and their world are parameters.
--
--   Core/Types, Quantities, Exceptions
--                                     src/nexusops/core/types.py, exceptions.py
--   Core/Dependencies                 src/nexusops/core/dependency_graph.py
--   Core/Validators                   src/nexusops/core/validators.py
--   Core/Workflow                     src/nexusops/core/workflow.py: execute, _compensate
--   Persistence/Models                src/nexusops/models/
--   Persistence/Queries               src/nexusops/repositories/
--   Inventory/Allocation              src/nexusops/domain/inventory/allocation.py; Ranking and Engine
--                                     are allocate, the file itself _create_reservation,
--                                     _apply_allocation, confirm_allocation and the releases
--   Inventory/Reservations            src/nexusops/domain/inventory/reservation_manager.py
--   Inventory/Reconciliation          src/nexusops/domain/inventory/reconciliation.py
--   Events/Bus, Events/Ordering       src/nexusops/events/bus.py, ordering.py
--   Events/Replay                     src/nexusops/events/replay.py
--   Fulfillment/Routing               src/nexusops/domain/fulfillment/routing.py
--   Fulfillment/Planning              src/nexusops/domain/fulfillment/planning.py: the planner routes an
--                                     order, and asks the allocation engine for each of its lines
--   Fulfillment/Shipments, Generation src/nexusops/domain/fulfillment/shipment_generation.py
--   Fulfillment/Workflow              src/nexusops/domain/fulfillment/workflow.py: over the planner, the
--                                     generation, the routes and the carriers
--   Transportation/Scheduling         src/nexusops/domain/transportation/scheduling.py
--   Transportation/Consolidation      src/nexusops/domain/transportation/consolidation.py
--   Transportation/Carriers           src/nexusops/domain/transportation/carrier_assignment.py
--   Transportation/Routes             src/nexusops/domain/transportation/routing.py
--   Procurement/Orders                src/nexusops/domain/procurement/purchase_orders.py
--   Warehousing/Transfers             src/nexusops/domain/warehouse/transfers.py
--   Warehousing/Inbound               src/nexusops/domain/warehouse/receiving.py
--   Warehousing/Putaway               src/nexusops/domain/warehouse/putaway.py
--   Warehousing/Picking               src/nexusops/domain/warehouse/pick_pack.py
--   Warehousing/CycleCount            src/nexusops/domain/warehouse/cycle_count.py
--   Optimization/Placement, Cost      src/nexusops/domain/optimization/placement.py, cost.py
--   Tests                             the theorems at concrete inputs
--
-- A definition has the name of the function that it models; a helper by clauses stands for a loop's
-- body or for what follows a lookup. Loops are recursions on the list that the source walks, so no
-- fuel is needed.
--
-- Not modelled: texts of messages, logs, JSON details, the correlation and actor of the context; the
-- order of rows where the source gives none (table order is taken, and first occurrence for a set);
-- the rounded routing score that a plan stores; concurrent sessions, commit and rollback;
-- forecasting, capacity, the optimization engine, replenishment, the network coordinator, the web layer, the cache and
-- the workers.
pub mod Common
pub mod Core
pub mod Persistence
pub mod Inventory
pub mod Fulfillment
pub mod Procurement
pub mod Events
pub mod Transportation
pub mod Optimization
pub mod Warehousing
pub mod Tests
