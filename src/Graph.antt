-- ===== src/Graph.antt =====
-- frontend/src/pages/GraphPage.js: the dependency graph that `/api/graph` returns.
-- `Blast` is the blast radius of a node, `Layout` the positions of groups and nodes,
-- `Edges` and `Nodes` what is drawn of the edges and the nodes, `Colors` the colors and the legend.
pub mod Blast
pub mod Layout
pub mod Edges
pub mod Nodes
pub mod Colors
mod Tests
use Prim.Native.String.{String}
use wolkvorm.Base.{List}

pub record Node : Type 0 where
  pub id : String
  pub group : String

-- `from` depends on `to`.
pub record Edge : Type 0 where
  pub from : String
  pub to : String
  pub label : String

pub record Graph : Type 0 where
  pub nodes : List Node
  pub edges : List Edge
