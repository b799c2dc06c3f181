-- ===== src/Registry/Pick.antt =====
-- PickFastestPerPriority of pkg/registry/registry.go: of the nodes that are alive, the fastest of
-- each priority, by priority.
pub mod Groups
pub mod Sort
pub mod Choice
use mezzium.Base.{Bool, List, [], ◌∷◌, ◌++◌, if◌then◌else◌}
use mezzium.Base.Int.{ℤ, ltb_ℤ, eqb_ℤ}
use mezzium.Networks.{Node}

-- The embedded Node, whether it answered, and its latency in milliseconds.
pub record NodeWithPing : Type 0 where
  pub node : Node
  pub open node use *
  pub alive : Bool
  pub ping : ℤ

-- An entry of the map `m`: a slice there has a first node, since it is made by `append`.
pub record Group : Type 0 where
  pub priority : ℤ
  pub first : NodeWithPing
  pub others : List NodeWithPing

-- m[n.Priority] = append(m[n.Priority], n)
unfoldable pub add_to_group : NodeWithPing → List Group → List Group
add_to_group n [] = record { priority = n.priority; first = n; others = [] } ∷ []
add_to_group n (g ∷ gs) =
    if eqb_ℤ g.priority n.priority
    then record g { others = g.others ++ n ∷ [] } ∷ gs
    else g ∷ add_to_group n gs

-- The loop over the nodes.
unfoldable pub group_alive : List Group → List NodeWithPing → List Group
unfolding add_to_group
group_alive m [] = m
group_alive m (n ∷ ns) = group_alive (if n.alive then add_to_group n m else m) ns

-- The loop over `group[1:]`.
unfoldable pub fastest : NodeWithPing → List NodeWithPing → NodeWithPing
fastest best [] = best
fastest best (cur ∷ rest) = fastest (if ltb_ℤ cur.ping best.ping then cur else best) rest

-- The loop over the map.
unfoldable pub fastest_of_each : List Group → List NodeWithPing
unfolding fastest
fastest_of_each [] = []
fastest_of_each (g ∷ gs) = fastest g.first g.others ∷ fastest_of_each gs

unfoldable pub insert_by_priority : NodeWithPing → List NodeWithPing → List NodeWithPing
insert_by_priority n [] = n ∷ []
insert_by_priority n (x ∷ xs) =
    if ltb_ℤ n.priority x.priority then n ∷ x ∷ xs else x ∷ insert_by_priority n xs

-- sort.Slice by priority.
unfoldable pub sort_by_priority : List NodeWithPing → List NodeWithPing
unfolding insert_by_priority
sort_by_priority [] = []
sort_by_priority (n ∷ ns) = insert_by_priority n (sort_by_priority ns)

-- What follows the grouping, for the map's entries in the order in which Go visits them.
unfoldable pub pick_from : List Group → List NodeWithPing
unfolding fastest_of_each sort_by_priority
pick_from m = sort_by_priority (fastest_of_each m)

unfoldable pub pick_fastest_per_priority : List NodeWithPing → List NodeWithPing
unfolding group_alive pick_from
pick_fastest_per_priority nodes = pick_from (group_alive [] nodes)
