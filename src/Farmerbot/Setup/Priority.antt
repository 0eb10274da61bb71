-- ===== src/Farmerbot/Setup/Priority.antt =====
-- The order in which `addPriorityToNodes` of farmerbot/internal/farmerbot.go gives the nodes.
use tfgrid_sdk_go.Prelude.{
  ℕ, ◌≡◌, sym, ◌∙◌, Bool, true, false, not, ◌||◌, ◌&&◌, List, [], ◌∷◌, ◌++◌, arith, ◌==◌,
  if◌then◌else◌, contains, contains-append, inl, inr, Bool-cases, All, All-map,
}
use mathlib.Core.List.{append-nil, append_assoc}
use tfgrid_sdk_go.Prelude.Dedup.{Distinct, Distinct-snoc}
use tfgrid_sdk_go.Farmerbot.Setup.{add_priority, add_rest, add_priority_to_nodes}

-- One round of either loop: the id is appended if the test says so and it is not there yet.
abbrev pub push : Bool → List ℕ → ℕ → List ℕ
push test out k = if test && not (contains out k) then out ++ k ∷ [] else out

pub push-Distinct : (test : Bool) (out : List ℕ) (k : ℕ) → Distinct out → Distinct (push test out k)
push-Distinct test out k d = elim (Bool-cases (contains out k)) [
  | inl old ↦ ground arith
  | inr new ↦ ground (arith, Distinct-snoc out k d new)
]

pub push-contains :
    (test : Bool) (out : List ℕ) (k j : ℕ)
    → contains (push test out k) j ≡ (contains out j || (test && k == j))
push-contains test out k j = ground (arith, contains-append out (k ∷ []) j)

add_priority-Distinct : (ps farm out : List ℕ) → Distinct out → Distinct (add_priority ps farm out)
unfolding add_priority
add_priority-Distinct [] farm out d = d
add_priority-Distinct (p ∷ ps) farm out d =
    add_priority-Distinct ps farm _ (push-Distinct (contains farm p) out p d)

add_priority-contains :
    (ps farm out : List ℕ) (j : ℕ)
    → contains (add_priority ps farm out) j ≡ (contains out j || (contains ps j && contains farm j))
unfolding add_priority
add_priority-contains [] farm out j = ground arith
add_priority-contains (p ∷ ps) farm out j =
    add_priority-contains ps farm _ j ∙ ground (arith, push-contains (contains farm p) out p j)

add_rest-Distinct : (ns out : List ℕ) → Distinct out → Distinct (add_rest ns out)
unfolding add_rest
add_rest-Distinct [] out d = d
add_rest-Distinct (n ∷ ns) out d = add_rest-Distinct ns _ (push-Distinct true out n d)

add_rest-contains :
    (ns out : List ℕ) (j : ℕ) → contains (add_rest ns out) j ≡ (contains out j || contains ns j)
unfolding add_rest
add_rest-contains [] out j = ground arith
add_rest-contains (n ∷ ns) out j =
    add_rest-contains ns _ j ∙ ground (arith, push-contains true out n j)

-- What the second loop adds stands behind what was there, and was not there.
add_rest_split :
    (ns out : List ℕ)
    → (rest : List ℕ) × (add_rest ns out ≡ out ++ rest) × All (λ k. contains out k ≡ false) rest
unfolding add_rest
add_rest_split [] out = ([], sym (append-nil out), tt)
add_rest_split (n ∷ ns) out = elim (Bool-cases (contains out n)) [
  | inl old ↦ rw old (add_rest_split ns out)
  | inr new ↦
      let (rest, e, fresh) = add_rest_split ns (out ++ n ∷ []) in
      rw new (
        n ∷ rest,
        e ∙ append_assoc out (n ∷ []) rest,
        (new, All-map rest (λ k h. ground (arith, h, contains-append out (n ∷ []) k)) fresh),
      )
]

-- The nodes of the farm, each once: first those that have priority, then the others.
pub add_priority_to_nodes_order :
    (priority_nodes farm_nodes : List ℕ)
    → let out = add_priority_to_nodes priority_nodes farm_nodes in
      Distinct out
      × ((k : ℕ) → contains out k ≡ contains farm_nodes k)
      × ((first : List ℕ) × (rest : List ℕ) × (out ≡ first ++ rest)
          × ((k : ℕ) → contains first k ≡ (contains priority_nodes k && contains farm_nodes k))
          × All (λ k. contains first k ≡ false) rest)
unfolding add_priority_to_nodes
add_priority_to_nodes_order ps farm =
    let (rest, e, fresh) = add_rest_split farm (add_priority ps farm []) in
    (
      add_rest-Distinct farm _ (add_priority-Distinct ps farm [] tt),
      λ k. ground (
        arith,
        add_rest-contains farm (add_priority ps farm []) k,
        add_priority-contains ps farm [] k,
      ),
      (add_priority ps farm [], rest, e, λ k. add_priority-contains ps farm [] k, fresh),
    )
