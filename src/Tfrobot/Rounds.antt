-- ===== src/Tfrobot/Rounds.antt =====
-- The rounds over the vms of a group in tfrobot/pkg/deployer/deployer.go: which they are, and how many.
use mathlib.Core.Option.{some_inj}
use tfgrid_sdk_go.Prelude.{
  ℕ, zero, suc, true, if◌then◌else◌, ◌+◌, ◌<◌, ◌≡◌, refl, sym, ap, ◌∙◌, inl, inr, subst, List, [],
  ◌∷◌, some, ◌++◌, All, All-map, All-append, IsIn, here, there, length-append, Bool-cases, arith,
  length, get_elem?, keep, ◌==◌,
}
use tfgrid_sdk_go.Tfrobot.Build.{Vms, rounds_of, rounds}

-- How many machines the vms of a group ask for.
abbrev pub machines_of : ℕ → List Vms → ℕ
machines_of group [] = 0
machines_of group (vm ∷ vms) =
    let rest = machines_of group vms in if vm.node_group == group then vm.vms_count + rest else rest

-- The machine with the index `i` of one of the vms of a group.
abbrev pub IsAsked : List Vms → ℕ → Vms × ℕ → Type 0
IsAsked vms group (vm, i) = IsIn vm vms × ((vm.node_group == group) ≡ true) × (i < vm.vms_count)

IsIn-left : {A : Type 0} {a : A} (xs ys : List A) → IsIn a xs → IsIn a (xs ++ ys)
IsIn-left [] ys i = elim i [ ]
IsIn-left (x ∷ xs) ys (here e) = here e
IsIn-left (x ∷ xs) ys (there i) = there (IsIn-left xs ys i)

IsIn-right : {A : Type 0} {a : A} (xs ys : List A) → IsIn a ys → IsIn a (xs ++ ys)
IsIn-right [] ys i = i
IsIn-right (x ∷ xs) ys i = there (IsIn-right xs ys i)

pub IsIn-get_elem? :
    {A : Type 0} {a : A} (xs : List A) → IsIn a xs → (k : ℕ) × (get_elem? xs k ≡ some a)
IsIn-get_elem? [] i = elim i [ ]
IsIn-get_elem? (x ∷ xs) (here e) = (0, ap some e)
IsIn-get_elem? (x ∷ xs) (there i) = let (k, e) = IsIn-get_elem? xs i in (suc k, e)

pub get_elem?-of_lt :
    {A : Type 0} (xs : List A) (k : ℕ) → k < length xs → (a : A) × (get_elem? xs k ≡ some a)
get_elem?-of_lt [] k l = absurd (omega (arith, l))
get_elem?-of_lt (x ∷ xs) zero l = (x, refl)
get_elem?-of_lt (x ∷ xs) (suc k) l = get_elem?-of_lt xs k (omega (arith, l))

pub get_elem?-IsIn :
    {A : Type 0} {a : A} (xs : List A) (k : ℕ) → get_elem? xs k ≡ some a → IsIn a xs
get_elem?-IsIn [] k h = cc
get_elem?-IsIn (x ∷ xs) zero h = here (some_inj.0 h)
get_elem?-IsIn (x ∷ xs) (suc k) h = there (get_elem?-IsIn xs k h)

length-rounds_of : (vm : Vms) (i left : ℕ) → length (rounds_of vm i left) ≡ left
unfolding rounds_of
length-rounds_of vm i zero = refl
length-rounds_of vm i (suc left) = ap suc (length-rounds_of vm (i + 1) left)

rounds_of-All :
    (vm : Vms) (i left : ℕ) → All (λ s. (s.0 ≡ vm) × (s.1 < i + left)) (rounds_of vm i left)
unfolding rounds_of
rounds_of-All vm i zero = tt
rounds_of-All vm i (suc left) = (
  (refl, omega arith),
  All-map (rounds_of vm (i + 1) left) (λ s h. (h.0, omega (arith, h.1)))
      (rounds_of-All vm (i + 1) left),
)

IsIn-rounds_of : (vm : Vms) (i left j : ℕ) → j < left → IsIn (vm, i + j) (rounds_of vm i left)
unfolding rounds_of
IsIn-rounds_of vm i zero j l = absurd (omega (arith, l))
IsIn-rounds_of vm i (suc left) zero l = here (ap (λ (n : ℕ). (vm, n)) (omega arith))
IsIn-rounds_of vm i (suc left) (suc j) l = there (
    subst (λ (n : ℕ). IsIn (vm, n) (rounds_of vm (i + 1) left)) (omega arith)
      (IsIn-rounds_of vm (i + 1) left j (omega (arith, l))))

-- The rounds over the vms of a group.
abbrev pub rounds_in : ℕ → List Vms → List (Vms × ℕ)
rounds_in group vms = rounds (keep (λ vm. vm.node_group == group) vms)

pub length-rounds :
    (group : ℕ) (vms : List Vms) → length (rounds_in group vms) ≡ machines_of group vms
unfolding rounds
length-rounds group [] = refl
length-rounds group (vm ∷ vms) = elim (Bool-cases (vm.node_group == group)) [
  | inl e ↦ rw e (
      length-append (rounds_of vm 0 vm.vms_count) (rounds_in group vms)
      ∙ ap (λ (n : ℕ). n + length (rounds_in group vms)) (length-rounds_of vm 0 vm.vms_count)
      ∙ ap (λ (n : ℕ). vm.vms_count + n) (length-rounds group vms))
  | inr e ↦ rw e (length-rounds group vms)
]

pub rounds-All : (group : ℕ) (vms : List Vms) → All (IsAsked vms group) (rounds_in group vms)
unfolding rounds
rounds-All group [] = tt
rounds-All group (vm ∷ vms) =
    let later : All (IsAsked (vm ∷ vms) group) (rounds_in group vms) =
      All-map (rounds_in group vms) (λ s h. (there h.0, h.1, h.2)) (rounds-All group vms) in
    elim (Bool-cases (vm.node_group == group)) [
      | inl e ↦ rw e (
          All-append (IsAsked (vm ∷ vms) group) (rounds_of vm 0 vm.vms_count) (rounds_in group vms)
            (All-map (rounds_of vm 0 vm.vms_count)
              (λ s h. (
                here (sym h.0),
                ap (λ (v : Vms). v.node_group == group) h.0 ∙ e,
                subst (λ (v : Vms). s.1 < v.vms_count) (sym h.0) (omega (arith, h.1)),
              ))
              (rounds_of-All vm 0 vm.vms_count))
            later)
      | inr e ↦ rw e later
    ]

pub IsIn-rounds :
    (group : ℕ) (vms : List Vms) (vm : Vms) (i : ℕ)
    → IsAsked vms group (vm, i)
    → IsIn (vm, i) (rounds_in group vms)
unfolding rounds
IsIn-rounds group [] vm i (at, e, l) = elim at [ ]
IsIn-rounds group (w ∷ vms) vm i (here same, e, l) =
    let mine : (w.node_group == group) ≡ true = ap (λ (v : Vms). v.node_group == group) same ∙ e in
    subst (λ (v : Vms). IsIn (v, i) (rounds_in group (w ∷ vms))) same
      (rw mine (
        IsIn-left (rounds_of w 0 w.vms_count) (rounds_in group vms) (
          subst (λ (n : ℕ). IsIn (w, n) (rounds_of w 0 w.vms_count)) (omega arith)
            (IsIn-rounds_of w 0 w.vms_count i
              (subst (λ (v : Vms). i < v.vms_count) (sym same) l)))))
IsIn-rounds group (w ∷ vms) vm i (there at, e, l) =
    let rest = IsIn-rounds group vms vm i (at, e, l) in
    elim (Bool-cases (w.node_group == group)) [
      | inl mine ↦ rw mine (IsIn-right (rounds_of w 0 w.vms_count) (rounds_in group vms) rest)
      | inr other ↦ rw other rest
    ]
