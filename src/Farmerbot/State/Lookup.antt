-- ===== src/Farmerbot/State/Lookup.antt =====
-- The list of nodes of farmerbot/internal/state.go as a finite map from ids.
use tfgrid_sdk_go.Prelude.{
  ℕ, ◌+◌, ◌≤◌, ◌≡◌, refl, ap, true, false, List, [], ◌∷◌, ◌&&◌, map, none, some, ok, err, arith,
  ◌==◌, length, contains, if◌then◌else◌, IsIn, here, there,
}
use tfgrid_sdk_go.Prelude.Dedup.{Distinct}
use tfgrid_sdk_go.Farmerbot.Node.{on, state_eq, Node}
use tfgrid_sdk_go.Farmerbot.State.{
  node_not_found, get_node, add_node, delete_node, update_node, filter_nodes_power,
}

abbrev pub ids : List Node → List ℕ
ids = map (λ n. n.id)

-- The list in which the first node with the id is replaced.
pub replace : List Node → Node → List Node
replace [] node = []
replace (n ∷ ns) node = if n.id == node.id then node ∷ ns else n ∷ replace ns node

pub update_node-eq-replace :
    (ns : List Node) (node : Node)
    → update_node ns node
      ≡ (if contains (ids ns) node.id then ok (replace ns node) else err (node_not_found node.id))
unfolding update_node replace
update_node-eq-replace [] node = refl
update_node-eq-replace (n ∷ ns) node = ground (arith, update_node-eq-replace ns node)

pub get_node-replace :
    (ns : List Node) (node : Node) (k : ℕ)
    → get_node (replace ns node) k
      ≡ (if node.id == k && contains (ids ns) k then some node else get_node ns k)
unfolding get_node replace
get_node-replace [] node k = ground arith
get_node-replace (n ∷ ns) node k = ground (arith, get_node-replace ns node k)

pub ids-replace : (ns : List Node) (node : Node) → ids (replace ns node) ≡ ids ns
unfolding replace
ids-replace [] node = refl
ids-replace (n ∷ ns) node = ground (arith, ids-replace ns node)

-- An id is found exactly when it is listed, and the node found has it.
pub get_node-contains :
    (ns : List Node) (k : ℕ) {n : Node}
    → get_node ns k ≡ some n
    → (n.id ≡ k) × (contains (ids ns) k ≡ true)
unfolding get_node
get_node-contains [] k h = cc
get_node-contains (x ∷ ns) k {n} h = ground (arith, get_node-contains ns k {n = n})

pub get_node-eq-none : (ns : List Node) (k : ℕ) → contains (ids ns) k ≡ false → get_node ns k ≡ none
unfolding get_node
get_node-eq-none [] k h = refl
get_node-eq-none (x ∷ ns) k h = ground (arith, get_node-eq-none ns k)

pub get_node-add_node :
    (ns : List Node) (node : Node) (k : ℕ)
    → get_node (add_node ns node) k
      ≡ (if contains (ids ns) k then get_node ns k else if node.id == k then some node else none)
unfolding get_node add_node
get_node-add_node [] node k = refl
get_node-add_node (n ∷ ns) node k = ground (arith, get_node-add_node ns node k)

pub get_node-delete_node :
    (ns : List Node) (j k : ℕ)
    → Distinct (ids ns)
    → get_node (delete_node ns j) k ≡ (if j == k then none else get_node ns k)
unfolding get_node delete_node
get_node-delete_node [] j k d = ground arith
get_node-delete_node (n ∷ ns) j k d =
    ground (arith, get_node-delete_node ns j k d.1, get_node-eq-none ns k)

pub contains-delete_node :
    (ns : List Node) (j k : ℕ)
    → contains (ids ns) k ≡ false
    → contains (ids (delete_node ns j)) k ≡ false
unfolding delete_node
contains-delete_node [] j k h = refl
contains-delete_node (n ∷ ns) j k h = ground (arith, contains-delete_node ns j k)

pub Distinct-delete_node :
    (ns : List Node) (j : ℕ) → Distinct (ids ns) → Distinct (ids (delete_node ns j))
unfolding delete_node
Distinct-delete_node [] j d = tt
Distinct-delete_node (n ∷ ns) j d =
    ground (arith, Distinct-delete_node ns j d.1, contains-delete_node ns j n.id)

-- The number of nodes that are on.
unfoldable pub count_on : List Node → ℕ
unfolding filter_nodes_power
count_on ns = length (filter_nodes_power (on ∷ []) ns)

-- A node that is replaced changes the number by one at most.
pub count_on-replace : (ns : List Node) (node : Node) → count_on ns ≤ count_on (replace ns node) + 1
unfolding count_on replace
count_on-replace [] node = omega arith
count_on-replace (n ∷ ns) node = ground (arith, count_on-replace ns node)

-- A node that was not on leaves at least as many on, whatever it becomes.
pub count_on-replace_ne :
    (ns : List Node) (node : Node) {old : Node}
    → get_node ns node.id ≡ some old
    → state_eq old.power_state on ≡ false
    → count_on ns ≤ count_on (replace ns node)
unfolding count_on replace get_node
count_on-replace_ne [] node h e = omega arith
count_on-replace_ne (n ∷ ns) node {old} h e =
    ground (arith, count_on-replace_ne ns node {old = old})

-- Where the ids are distinct, a node of the list is the one found under its id.
pub get_node-IsIn :
    (ns : List Node) {n : Node} → Distinct (ids ns) → IsIn n ns → get_node ns n.id ≡ some n
unfolding get_node
get_node-IsIn [] d i = elim i [ ]
get_node-IsIn (x ∷ ns) {n} d (here e) = ground (arith, ap (λ m. m.id) e)
get_node-IsIn (x ∷ ns) {n} d (there i) =
    ground
      (arith, get_node-IsIn ns {n = n} d.1 i, get_node-contains ns n.id (get_node-IsIn ns d.1 i))
