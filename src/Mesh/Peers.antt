-- ===== src/Mesh/Peers.antt =====
-- The peers in the deployments of `generateDeployments` (grid-client/workloads/network.go).
use tfgrid_sdk_go.Prelude.{
  ℕ, ◌≡◌, ◌≢◌, refl, sym, Bool, true, false, ◌||◌, inl, inr, List, [], ◌∷◌, ◌++◌, none, some, ◌==◌,
  if◌then◌else◌, contains, arith, Bool-cases, Any, here, there, IsIn, subst, ==_iff, ap, ◌∙◌,
}
use tfgrid_sdk_go.Prelude.Maps
use tfgrid_sdk_go.Network.{IpNet}
use tfgrid_sdk_go.Mesh.{
  Mesh, range_of, key_of, hidden_ranges, access_ranges, non_accessible_ip_ranges, accessible_peer,
  accessible_peers, hidden_peers, peers_of_accessible, peers_of_hidden, workload_of,
  deploy_accessible, deploy_hidden, deployments_of,
}
use tfgrid_sdk_go.Mesh.Net.{KeySource, WgPeer, NetworkWorkload}

-- The peer has the public key, and what is sent to the range goes to it.
abbrev pub Allows : ℕ → IpNet → WgPeer → Type 0
Allows key range p = (p.wg_public_key ≡ key) × IsIn range p.allowed_ips

-- The node's deployment has such a peer.
abbrev pub HasPeer : List (ℕ × NetworkWorkload) → ℕ → ℕ → IpNet → Type 0
HasPeer dls node key range =
    (wl : NetworkWorkload) × (Maps.lookup node dls ≡ some wl) × Any (Allows key range) wl.peers

pub Any-append_left : {A : Type 0} (P : A → Type 0) (xs ys : List A) → Any P xs → Any P (xs ++ ys)
Any-append_left P [] ys i = elim i [ ]
Any-append_left P (x ∷ xs) ys (here p) = here p
Any-append_left P (x ∷ xs) ys (there i) = there (Any-append_left P xs ys i)

pub Any-append_right : {A : Type 0} (P : A → Type 0) (xs ys : List A) → Any P ys → Any P (xs ++ ys)
Any-append_right P [] ys i = i
Any-append_right P (x ∷ xs) ys i = there (Any-append_right P xs ys i)

-- One round of a loop that inserts `f node` for each node.
insert_all_step :
    {V : Type 0} (f : ℕ → V) (node j : ℕ) (later : Bool) (dls : List (ℕ × V))
    → (if later then some (f j) else Maps.lookup j (Maps.insert node (f node) dls))
      ≡ (if node == j || later then some (f j) else Maps.lookup j dls)
insert_all_step f node j later dls = elim (Bool-cases (node == j)) [
  | inl e ↦ ground (arith, e, Maps.lookup-insert j node (f node) dls, ap f ((==_iff node j).0 e))
  | inr e ↦ ground (arith, e, Maps.lookup-insert j node (f node) dls)
]

module _ (ks : KeySource) (m : Mesh) where
  hidden_ranges-IsIn :
      (nodes : List ℕ) (j : ℕ)
      → contains nodes j ≡ true
      → IsIn (range_of ks m j) (hidden_ranges ks m nodes)
  unfolding hidden_ranges
  hidden_ranges-IsIn [] j h = cc
  hidden_ranges-IsIn (node ∷ nodes) j h = elim (Bool-cases (node == j)) [
    | inl e ↦ here (ap (range_of ks m) ((==_iff node j).0 e))
    | inr e ↦ there (there (hidden_ranges-IsIn nodes j (ground (arith, h, e))))
  ]

  pub hidden_peers-Allows :
      (nodes : List ℕ) (j : ℕ)
      → contains nodes j ≡ true
      → Any (Allows (ks.public_key (key_of ks m j)) (range_of ks m j)) (hidden_peers ks m nodes)
  unfolding hidden_peers
  hidden_peers-Allows [] j h = cc
  hidden_peers-Allows (node ∷ nodes) j h = elim (Bool-cases (node == j)) [
    | inl e ↦
        let same : node ≡ j = (==_iff node j).0 e in
        here (ap (λ a. ks.public_key (key_of ks m a)) same, here (ap (range_of ks m) same))
    | inr e ↦ there (hidden_peers-Allows nodes j (ground (arith, h, e)))
  ]

  pub accessible_peers-Any :
      (P : WgPeer → Type 0) (node j : ℕ) (nodes : List ℕ)
      → node ≢ j
      → contains nodes j ≡ true
      → P (accessible_peer ks m j)
      → Any P (accessible_peers ks m node nodes)
  unfolding accessible_peers
  accessible_peers-Any P node j [] ne h p = cc
  accessible_peers-Any P node j (peer ∷ peers) ne h p = elim (Bool-cases (peer == j)) [
    | inl e ↦
        let same : j ≡ peer = sym ((==_iff peer j).0 e) in
        let other : (peer == node) ≡ false = ground (arith, ne, e) in
        rw other (here (subst (λ a. P (accessible_peer ks m a)) same p))
    | inr e ↦
        let later = accessible_peers-Any P node j peers ne (ground (arith, h, e)) p in
        elim (Bool-cases (peer == node)) [
          | inl own ↦ rw own later
          | inr other ↦ rw other (there later)
        ]
  ]

  -- The peer of an accessible node allows the range of that node, and the public node's also those of
  -- the hidden nodes.
  pub accessible_peer-Allows :
      (j : ℕ) → Allows (ks.public_key (key_of ks m j)) (range_of ks m j) (accessible_peer ks m j)
  unfolding accessible_peer
  accessible_peer-Allows j = (refl, here refl)

  pub public_peer-Allows :
      (j : ℕ)
      → contains m.sorted.hidden_nodes j ≡ true
      → Allows
          (ks.public_key (key_of ks m m.net.public_node_id))
          (range_of ks m j)
          (accessible_peer ks m m.net.public_node_id)
  unfolding accessible_peer non_accessible_ip_ranges
  public_peer-Allows j h =
      let own : (m.net.public_node_id == m.net.public_node_id) ≡ true = ground arith in
      rw own (
        refl,
        there (
            there (
              Any-append_left (λ r. r ≡ range_of ks m j) (hidden_ranges ks m m.sorted.hidden_nodes)
                (access_ranges ks m) (hidden_ranges-IsIn m.sorted.hidden_nodes j h))),
      )

  lookup-deploy_accessible :
      (nodes : List ℕ) (dls : List (ℕ × NetworkWorkload)) (j : ℕ)
      → Maps.lookup j (deploy_accessible ks m nodes dls) ≡ (
          if contains nodes j
          then some (workload_of ks m j (peers_of_accessible ks m j))
          else Maps.lookup j dls)
  unfolding deploy_accessible
  lookup-deploy_accessible [] dls j = refl
  lookup-deploy_accessible (node ∷ nodes) dls j =
      let f = λ (a : ℕ). workload_of ks m a (peers_of_accessible ks m a) in
      lookup-deploy_accessible nodes (Maps.insert node (f node) dls) j
      ∙ insert_all_step f node j (contains nodes j) dls

  lookup-deploy_hidden :
      (nodes : List ℕ) (dls : List (ℕ × NetworkWorkload)) (j : ℕ)
      → Maps.lookup j (deploy_hidden ks m nodes dls) ≡ (
          if contains nodes j
          then some (workload_of ks m j (peers_of_hidden ks m j))
          else Maps.lookup j dls)
  unfolding deploy_hidden
  lookup-deploy_hidden [] dls j = refl
  lookup-deploy_hidden (node ∷ nodes) dls j =
      let f = λ (a : ℕ). workload_of ks m a (peers_of_hidden ks m a) in
      lookup-deploy_hidden nodes (Maps.insert node (f node) dls) j
      ∙ insert_all_step f node j (contains nodes j) dls

  -- The deployment of each sorted node.
  pub lookup-deployments_of :
      (j : ℕ)
      → Maps.lookup j (deployments_of ks m) ≡ (
          if contains m.sorted.hidden_nodes j
          then some (workload_of ks m j (peers_of_hidden ks m j))
          else if contains m.sorted.accessible_nodes j
          then some (workload_of ks m j (peers_of_accessible ks m j))
          else none)
  unfolding deployments_of Maps.lookup
  lookup-deployments_of j = ground (
    arith,
    lookup-deploy_hidden m.sorted.hidden_nodes (deploy_accessible ks m m.sorted.accessible_nodes [])
        j,
    lookup-deploy_accessible m.sorted.accessible_nodes [] j,
  )
