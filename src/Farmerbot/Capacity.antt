-- ===== src/Farmerbot/Capacity.antt =====
-- farmerbot/internal/types.go: `capacity` and its methods, and `convertGBToBytes` of find_node.go.
-- A uint64 is a number below 2 ^ 64, and its sums and products wrap.
use tfgrid_sdk_go.Prelude.{ℕ, ◌+◌, ◌-◌, ◌*◌, ◌%◌, ◌^◌, Bool, ◌&&◌, ltb, ◌==◌, if◌then◌else◌}

abbrev pub u64_mod : ℕ
u64_mod = 2 ^ 64

pub record Capacity : Type 0 where
  pub hru : ℕ
  pub sru : ℕ
  pub cru : ℕ
  pub mru : ℕ

abbrev pub empty : Capacity
empty = record { hru = 0; sru = 0; cru = 0; mru = 0 }

unfoldable pub is_empty : Capacity → Bool
is_empty cap = cap.cru == 0 && cap.mru == 0 && cap.sru == 0 && cap.hru == 0

abbrev pub add_u64 : ℕ → ℕ → ℕ
add_u64 a b = (a + b) % u64_mod

unfoldable pub add : Capacity → Capacity → Capacity
add cap c = record {
  hru = add_u64 cap.hru c.hru;
  sru = add_u64 cap.sru c.sru;
  cru = add_u64 cap.cru c.cru;
  mru = add_u64 cap.mru c.mru;
}

unfoldable pub subtract_or_zero : ℕ → ℕ → ℕ
subtract_or_zero a b = if ltb b a then a - b else 0

unfoldable pub subtract : Capacity → Capacity → Capacity
unfolding subtract_or_zero
subtract cap c = record {
  hru = subtract_or_zero cap.hru c.hru;
  sru = subtract_or_zero cap.sru c.sru;
  cru = subtract_or_zero cap.cru c.cru;
  mru = subtract_or_zero cap.mru c.mru;
}

-- Go's `==` on two values of the struct.
abbrev pub capacity_eq : Capacity → Capacity → Bool
capacity_eq a b = a.hru == b.hru && a.sru == b.sru && a.cru == b.cru && a.mru == b.mru

unfoldable pub convert_gb_to_bytes : ℕ → ℕ
convert_gb_to_bytes gb = gb * 1024 * 1024 * 1024 % u64_mod
