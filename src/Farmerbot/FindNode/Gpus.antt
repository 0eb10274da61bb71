-- ===== src/Farmerbot/FindNode/Gpus.antt =====
-- The filters on cards in farmerbot/internal/find_node.go.
use tfgrid_sdk_go.Prelude.{ℕ, ◌≡◌, refl, false, List, [], ◌∷◌, arith, if◌then◌else◌, contains, keep}
use tfgrid_sdk_go.Prelude.Dedup.{Distinct}
use tfgrid_sdk_go.Farmerbot.Env.{Gpu}
use tfgrid_sdk_go.Farmerbot.FindNode.{copies, filter_gpus_by_vendors, filter_gpus_by_devices}

copies-none : (key : ℕ) (gpu : Gpu) (xs : List ℕ) → contains xs key ≡ false → copies key gpu xs ≡ []
unfolding copies
copies-none key gpu [] h = refl
copies-none key gpu (x ∷ xs) h = ground (arith, copies-none key gpu xs)

copies-once :
    (key : ℕ) (gpu : Gpu) (xs : List ℕ)
    → Distinct xs
    → copies key gpu xs ≡ (if contains xs key then gpu ∷ [] else [])
unfolding copies
copies-once key gpu [] d = refl
copies-once key gpu (x ∷ xs) d = ground (arith, copies-once key gpu xs d.1, copies-none key gpu xs)

-- If the vendors, or devices, are named without repetition, the filters keep each card once and exactly
-- those with one of them.
pub filter_gpus-keep :
    (gs : List Gpu) (xs : List ℕ)
    → Distinct xs
    → (filter_gpus_by_vendors gs xs ≡ keep (λ g. contains xs g.vendor) gs)
      × (filter_gpus_by_devices gs xs ≡ keep (λ g. contains xs g.device) gs)
unfolding filter_gpus_by_vendors filter_gpus_by_devices
filter_gpus-keep [] xs d = (refl, refl)
filter_gpus-keep (g ∷ gs) xs d =
    let (v, w) = filter_gpus-keep gs xs d in
    (ground (arith, copies-once g.vendor g xs d, v), ground (arith, copies-once g.device g xs d, w))

-- A vendor that is named twice makes one card of it count twice.
pub filter_gpus-twice :
    (g : Gpu) (xs : List ℕ)
    → filter_gpus_by_vendors (g ∷ []) (g.vendor ∷ g.vendor ∷ xs)
      ≡ g ∷ g ∷ filter_gpus_by_vendors (g ∷ []) xs
unfolding filter_gpus_by_vendors
filter_gpus-twice g xs = ground arith
