-- ===== src/CommitGraph/IterList.antt =====
-- The list of the nodes to be passed next.
use gameoftrees.Base.{
  ℕ, ◌<◌, ◌≤◌, ◌≡◌, ◌≢◌, refl, ap, sym, List, [], ◌∷◌, ◌++◌, All, arith, leb, Bool-cases, inl, inr,
}
use gameoftrees.CommitGraph.{GraphNode, insert_behind, add_node_to_iter_list}

-- From the youngest to the oldest.
abbrev pub IsDescending : List GraphNode → Type 0
IsDescending [] = Unit
IsDescending (n ∷ nodes) = All (λ m. m.timestamp ≤ n.timestamp) nodes × IsDescending nodes

-- Where the node is put.
abbrev pub IsPlaced : GraphNode → List GraphNode → List GraphNode → Type 0
IsPlaced node nodes result =
    (before : List GraphNode) × (behind : List GraphNode) × (nodes ≡ before ++ behind)
    × (result ≡ before ++ (node ∷ behind))
    × All (λ n. node.timestamp < n.timestamp) before
    × All (λ n. n.timestamp ≤ node.timestamp) behind

below_all :
    (nodes : List GraphNode) (a b : ℕ)
    → a ≤ b
    → All (λ m. m.timestamp ≤ a) nodes
    → All (λ m. m.timestamp ≤ b) nodes
below_all [] a b h k = tt
below_all (n ∷ nodes) a b h k = (omega (arith, k.0), below_all nodes a b h k.1)

insert_behind-IsPlaced :
    (node : GraphNode) (nodes : List GraphNode)
    → IsDescending nodes
    → IsPlaced node nodes (insert_behind node nodes)
unfolding insert_behind
insert_behind-IsPlaced node [] h = ([], [], refl, refl, tt, tt)
insert_behind-IsPlaced node (n ∷ nodes) h = elim (Bool-cases (leb n.timestamp node.timestamp)) [
  | inl e ↦ (
    [],
    n ∷ nodes,
    refl,
    rw e refl,
    tt,
    (ground arith, below_all nodes n.timestamp node.timestamp (ground arith) h.0),
  )
  | inr e ↦
      let (before, behind, s, r, a, b) = insert_behind-IsPlaced node nodes h.1 in
      (n ∷ before, behind, ap (◌∷◌ n) s, rw e (ap (◌∷◌ n) r), (ground arith, a), b)
]

pub insert_behind-All :
    (Q : GraphNode → Type 0) (node : GraphNode) (nodes : List GraphNode)
    → Q node
    → All Q nodes
    → All Q (insert_behind node nodes)
unfolding insert_behind
insert_behind-All Q node [] p h = (p, tt)
insert_behind-All Q node (n ∷ nodes) p h = elim (Bool-cases (leb n.timestamp node.timestamp)) [
  | inl e ↦ rw e (p, h)
  | inr e ↦ rw e (h.0, insert_behind-All Q node nodes p h.1)
]

insert_behind-IsDescending :
    (node : GraphNode) (nodes : List GraphNode)
    → IsDescending nodes
    → IsDescending (insert_behind node nodes)
unfolding insert_behind
insert_behind-IsDescending node [] h = (tt, tt)
insert_behind-IsDescending node (n ∷ nodes) h = elim (Bool-cases (leb n.timestamp node.timestamp)) [
  | inl e ↦ rw e ((ground arith, below_all nodes n.timestamp node.timestamp (ground arith) h.0), h)
  | inr e ↦ rw e (
    insert_behind-All (λ m. m.timestamp ≤ n.timestamp) node nodes (ground arith) h.0,
    insert_behind-IsDescending node nodes h.1,
  )
]

-- add_node_to_iter_list leaves the first node of the list where it is. If the nodes behind it are
-- from the youngest to the oldest, they are so with the new one among them, which stands behind
-- those that are younger and in front of those that are as old or older.
pub add_node_to_iter_list_lem :
    (first node : GraphNode) (nodes : List GraphNode)
    → IsDescending nodes
    → (nodes' : List GraphNode) × (add_node_to_iter_list (first ∷ nodes) node ≡ first ∷ nodes')
      × IsDescending nodes'
      × IsPlaced node nodes nodes'
unfolding add_node_to_iter_list
add_node_to_iter_list_lem first node nodes h = (
  insert_behind node nodes,
  refl,
  insert_behind-IsDescending node nodes h,
  insert_behind-IsPlaced node nodes h,
)

pub add_node-All :
    (Q : GraphNode → Type 0) (node : GraphNode) (nodes : List GraphNode)
    → Q node
    → All Q nodes
    → All Q (add_node_to_iter_list nodes node)
unfolding add_node_to_iter_list
add_node-All Q node [] p h = (p, tt)
add_node-All Q node (n ∷ nodes) p h = (h.0, insert_behind-All Q node nodes p h.1)

-- The nodes have different identifiers.
abbrev pub AreDistinct : List GraphNode → Type 0
AreDistinct [] = Unit
AreDistinct (n ∷ nodes) = All (λ m. m.id ≢ n.id) nodes × AreDistinct nodes

insert_behind-AreDistinct :
    (node : GraphNode) (nodes : List GraphNode)
    → All (λ m. m.id ≢ node.id) nodes
    → AreDistinct nodes
    → AreDistinct (insert_behind node nodes)
unfolding insert_behind
insert_behind-AreDistinct node [] p h = (tt, tt)
insert_behind-AreDistinct node (n ∷ nodes) p h =
    elim (Bool-cases (leb n.timestamp node.timestamp)) [
      | inl e ↦ rw e (p, h)
      | inr e ↦ rw e (
        insert_behind-All (λ m. m.id ≢ n.id) node nodes (λ s. p.0 (sym s)) h.0,
        insert_behind-AreDistinct node nodes p.1 h.1,
      )
    ]

pub add_node-AreDistinct :
    (node : GraphNode) (nodes : List GraphNode)
    → All (λ m. m.id ≢ node.id) nodes
    → AreDistinct nodes
    → AreDistinct (add_node_to_iter_list nodes node)
unfolding add_node_to_iter_list
add_node-AreDistinct node [] p h = (tt, tt)
add_node-AreDistinct node (n ∷ nodes) p h = (
  insert_behind-All (λ m. m.id ≢ n.id) node nodes (λ s. p.0 (sym s)) h.0,
  insert_behind-AreDistinct node nodes p.1 h.1,
)
