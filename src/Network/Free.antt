-- ===== src/Network/Free.antt =====
-- `nextFreeIP` of grid-client/workloads/network.go.
use tfgrid_sdk_go.Prelude.{
  ℕ, zero, suc, ◌+◌, ◌-◌, ◌≤◌, ◌<◌, ◌≡◌, true, false, ◌&&◌, ◌⊎◌, inl, inr, List, ok, err,
  Bool-cases, arith, leb, ◌==◌, contains,
}
use tfgrid_sdk_go.Network.{no_free_ip, next_free_on, next_free_ip}

-- Every octet from `start` on and below `stop` is used.
abbrev pub AllUsed : List ℕ → ℕ → ℕ → Type 0
AllUsed used start stop = (i : ℕ) → start ≤ i → i < stop → contains used i ≡ true

AllUsed-extend :
    (used : List ℕ) (start stop : ℕ)
    → contains used start ≡ true
    → AllUsed used (start + 1) stop
    → AllUsed used start stop
AllUsed-extend used start stop h all i l m = elim (Bool-cases (start == i)) [
  | inl e ↦ ground (arith, e, h)
  | inr e ↦ all i (ground (arith, e, l)) m
]

-- Where the loop stops.
Stops : List ℕ → ℕ → ℕ → Type 0
Stops used start free =
    (start ≤ free)
    × (free ≤ 255)
    × AllUsed used start free
    × (free < 255 → contains used free ≡ false)

next_free_on-Stops :
    (n : ℕ) (used : List ℕ) (start : ℕ)
    → start + n ≡ 255
    → Stops used start (next_free_on n used start)
unfolding next_free_on Stops
next_free_on-Stops zero used start e = (
  omega arith,
  omega (arith, e),
  λ i l m. absurd (omega (arith, l, m)),
  λ l. absurd (omega (arith, l, e)),
)
next_free_on-Stops (suc n) used start e =
    let (l, m, all, free) = next_free_on-Stops n used (start + 1) (omega (arith, e)) in
    elim (Bool-cases (contains used start)) [
      | inl h ↦
          let stays : (contains used start && leb start 254) ≡ true = ground (arith, h, e) in
          rw stays (
            omega (arith, l),
            m,
            AllUsed-extend used start (next_free_on n used (start + 1)) h all,
            free,
          )
      | inr h ↦ rw h (omega arith, omega (arith, e), λ i p q. absurd (omega (arith, p, q)), λ p. h)
    ]

-- From a start of at most 255, `nextFreeIP` finds the first octet, from there to 254, that is not
-- used; and it fails only if all of them are used.
pub next_free_ip-first :
    (used : List ℕ) (start : ℕ)
    → start ≤ 255
    → ((free : ℕ) × (next_free_ip used start ≡ ok free)
        × (start ≤ free)
        × (free ≤ 254)
        × (contains used free ≡ false)
        × AllUsed used start free)
      ⊎ ((next_free_ip used start ≡ err no_free_ip) × AllUsed used start 255)
unfolding next_free_ip Stops
next_free_ip-first used start l =
    let (s0, s1, all, unused) = next_free_on-Stops (255 - start) used start (omega (arith, l)) in
    elim (Bool-cases (next_free_on (255 - start) used start == 255)) [
      | inl e ↦ inr (ground (arith, e), λ i l m. all i l (ground (arith, e, m)))
      | inr e ↦ inl (
        next_free_on (255 - start) used start,
        ground (arith, e),
        s0,
        ground (arith, e, s1),
        unused (ground (arith, e, s1)),
        all,
      )
    ]
