-- ===== src/Core/Dependencies.antt =====
-- src/nexusops/core/dependency_graph.py. The graph is networkx's: `Networkx` is what the code asks
-- it, over the edges. A node has the attributes that the code sets; one that only an edge names
-- has none.
use text.Mathlib.Text.{◌==◌ as str_eq}
use supply_chain_execution.Common.{
  Bool, List, Option, String, [], any, false, filter, if◌then◌else◌, none, not, some, ℕ, ◌&&◌, ◌++◌,
  ◌==◌, ◌||◌, ◌∷◌,
}
use supply_chain_execution.Core.Effect.{Result, ok, raised}
use supply_chain_execution.Core.Exceptions.{Error, dependency_graph_error}

pub data NodeType : Type 0 where
  order allocation fulfillment_plan shipment : NodeType
  purchase_order transfer warehouse_task : NodeType

pub record DependencyNode : Type 0 where
  pub node_type : NodeType
  pub status : String

pub record DependencyGraph : Type 0 where
  pub nodes : List (ℕ × Option DependencyNode)
  -- from the dependency to the dependent
  pub edges : List (ℕ × ℕ)

pub record Networkx : Type 0 where
  pub is_acyclic : List (ℕ × ℕ) → Bool
  pub ancestors : ℕ → List (ℕ × ℕ) → List ℕ
  pub topological_sort : DependencyGraph → List ℕ

abbrev pub Nodes : Type 0
Nodes = List (ℕ × Option DependencyNode)

abbrev pub has_node : ℕ → Nodes → Bool
has_node id nodes = any (λ (x : ℕ × Option DependencyNode). x.0 == id) nodes

unfoldable pub set_node : ℕ → DependencyNode → Nodes → Nodes
set_node id node [] = (id, some node) ∷ []
set_node id node ((k, n) ∷ rest) =
    if k == id then (k, some node) ∷ rest else (k, n) ∷ set_node id node rest

unfoldable pub add_node : ℕ → DependencyNode → DependencyGraph → DependencyGraph
add_node id node g = record g { nodes = set_node id node g.nodes }

abbrev pub name_node : ℕ → Nodes → Nodes
name_node id nodes = if has_node id nodes then nodes else nodes ++ (id, none) ∷ []

unfoldable pub add_dependency : ℕ → ℕ → DependencyGraph → DependencyGraph
add_dependency dependent dependency g = record {
  nodes = name_node dependent (name_node dependency g.nodes);
  edges =
      if any (λ (e : ℕ × ℕ). (e.0 == dependency) && (e.1 == dependent)) g.edges
      then g.edges
      else g.edges ++ (dependency, dependent) ∷ [];
}

abbrev pub touches : ℕ → ℕ × ℕ → Bool
touches id e = (e.0 == id) || (e.1 == id)

-- The nodes with no edge, in either direction.
unfoldable pub orphans_among : List (ℕ × ℕ) → Nodes → List ℕ
orphans_among edges [] = []
orphans_among edges ((id, n) ∷ rest) =
    if any (touches id) edges then orphans_among edges rest else id ∷ orphans_among edges rest

unfoldable pub find_orphan_nodes : DependencyGraph → List ℕ
find_orphan_nodes g = orphans_among g.edges g.nodes

abbrev pub find_node : ℕ → Nodes → Option DependencyNode
find_node id [] = none
find_node id ((k, n) ∷ rest) = if k == id then n else find_node id rest

abbrev pub is_unconfirmed : Option DependencyNode → Bool
is_unconfirmed none = false
is_unconfirmed (some node) = elim node.node_type [
  | NodeType.allocation ↦ not (str_eq node.status "confirmed")
  | _ ↦ false
]

module _ (nx : Networkx) where
  unfoldable pub validate_no_cycles : DependencyGraph → Option Error
  validate_no_cycles g = if nx.is_acyclic g.edges then none else some dependency_graph_error

  unfoldable pub get_upstream : ℕ → DependencyGraph → List ℕ
  get_upstream id g = nx.ancestors id g.edges

  -- The allocations upstream that are not confirmed; the messages name them.
  unfoldable pub validate_shipment_dependencies : ℕ → DependencyGraph → List ℕ
  validate_shipment_dependencies node g =
      filter (λ (id : ℕ). is_unconfirmed (find_node id g.nodes)) (get_upstream node g)

  unfoldable pub topological_order : DependencyGraph → Result (List ℕ)
  topological_order g = elim (validate_no_cycles g) [
    | some e ↦ raised e
    | none ↦ ok (nx.topological_sort g)
  ]
