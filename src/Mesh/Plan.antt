-- ===== src/Mesh/Plan.antt =====
-- The first part of `generateDeployments` of grid-client/workloads/network.go: which nodes are
-- hidden, and which node is the public one.
use tfgrid_sdk_go.Prelude.{
  ℕ, ◌+◌, Bool, not, ◌&&◌, ◌||◌, List, [], ◌∷◌, ◌++◌, Option, none, some, Result, ok, err, ◌>>=◌,
  ltb, ◌==◌, if◌then◌else◌, contains, length,
}
use tfgrid_sdk_go.Prelude.Maps
use tfgrid_sdk_go.Network.{AddressError}

pub data Ip : Type 0 where
  ipv4 : ℕ → Ip
  ipv6 : ℕ → Ip

-- The endpoints by node; a node without an endpoint is hidden.
abbrev pub EndpointIps : Type 0
EndpointIps = List (ℕ × Option Ip)

-- The text of a host: an address, one in brackets, the text of the nil address, or none.
pub data Host : Type 0 where
  address : Ip → Host
  bracketed : Ip → Host
  nil_address : Host
  no_host : Host

pub data MeshError : Type 0 where
  failing_node : ℕ → MeshError
  no_public_node : MeshError
  not_assigned : AddressError → MeshError
  no_key : ℕ → MeshError
  no_draws : MeshError

-- `hiddenNodes`, `accessibleNodes`, `ipv4Node` and `endpoints`.
pub record Sorted : Type 0 where
  pub hidden_nodes : List ℕ
  pub accessible_nodes : List ℕ
  pub ipv4_node : ℕ
  pub hosts : List (ℕ × Host)

abbrev pub nothing_sorted : Sorted
nothing_sorted = record { hidden_nodes = []; accessible_nodes = []; ipv4_node = 0; hosts = [] }

unfoldable pub sort_found : ℕ → Option Ip → Sorted → Sorted
sort_found node none s = record s { hidden_nodes = s.hidden_nodes ++ node ∷ [] }
sort_found node (some (ipv4 a)) s = record s {
  accessible_nodes = s.accessible_nodes ++ node ∷ [];
  ipv4_node = node;
  hosts = Maps.insert node (address (ipv4 a)) s.hosts;
}
sort_found node (some (ipv6 a)) s = record s {
  accessible_nodes = s.accessible_nodes ++ node ∷ [];
  hosts = Maps.insert node (bracketed (ipv6 a)) s.hosts;
}

unfoldable pub sort_node : EndpointIps → ℕ → Sorted → Result MeshError Sorted
sort_node ips node s = elim (Maps.lookup node ips) [
  | none ↦ err (failing_node node)
  | some ip ↦ ok (sort_found node ip s)
]

unfoldable pub sort_nodes : EndpointIps → List ℕ → Sorted → Result MeshError Sorted
sort_nodes ips [] s = ok s
sort_nodes ips (node ∷ nodes) s = do next ← sort_node ips node s; sort_nodes ips nodes next

unfoldable pub needs_ipv4_access : Bool → Sorted → Bool
needs_ipv4_access add_wg_access s =
    add_wg_access
    || (not (length s.hidden_nodes == 0)
        && ltb 1 (length s.hidden_nodes + length s.accessible_nodes))

abbrev pub host_of : Option Ip → Host
host_of none = nil_address
host_of (some ip) = address ip

unfoldable pub add_public : ℕ → Option (Option Ip) → Sorted → Result MeshError (ℕ × Sorted)
add_public node none s = err no_public_node
add_public node (some ip) s =
    if node == 0
    then err no_public_node
    else ok (
      node,
      record s {
        accessible_nodes = s.accessible_nodes ++ node ∷ [];
        hosts = Maps.insert node (host_of ip) s.hosts;
      },
    )

-- The public node: the one that is set, a node with an IPv4 address, or the one that was found.
unfoldable pub choose_public : EndpointIps → ℕ → ℕ → Sorted → Result MeshError (ℕ × Sorted)
choose_public ips set found s =
    if not (set == 0)
    then ok (
      set,
      if contains s.accessible_nodes set
          then s
          else record s { accessible_nodes = s.accessible_nodes ++ set ∷ [] },
    )
    else if not (s.ipv4_node == 0)
    then ok (s.ipv4_node, s)
    else add_public found (Maps.lookup found ips) s

-- The public node and the sorted nodes; without the need for a public node, what is set stays.
unfoldable pub plan : EndpointIps → Bool → List ℕ → ℕ → ℕ → Result MeshError (ℕ × Sorted)
plan ips add_wg_access nodes set found = do
  s ← sort_nodes ips nodes nothing_sorted
  if needs_ipv4_access add_wg_access s then choose_public ips set found s else ok (set, s)
