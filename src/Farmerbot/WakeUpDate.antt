-- ===== src/Farmerbot/WakeUpDate.antt =====
-- The text form of `wakeUpDate` in farmerbot/internal/types.go: `UnmarshalText` and `MarshalText`. A
-- text is the list of its bytes, and a date is its hour and its minute, which is all that is used.
mod Tests
use tfgrid_sdk_go.Prelude.{
  ℕ, ◌+◌, ◌-◌, ◌*◌, ◌/◌, ◌%◌, ◌≡◌, ◌<◌, refl, Bool, true, false, ◌&&◌, ◌||◌, not, List, [], ◌∷◌,
  ◌++◌, Option, none, some, arith, ltb, leb, ◌==◌, if◌then◌else◌, ap, ◌∙◌,
}

abbrev pub quote : ℕ
quote = 34

abbrev zero_digit : ℕ
zero_digit = 48

abbrev colon : ℕ
colon = 58

-- The letters A, P and M.
abbrev letter_a : ℕ
letter_a = 65

abbrev letter_p : ℕ
letter_p = 80

abbrev letter_m : ℕ
letter_m = 77

-- `strings.Trim` with the quote as the cut set.
unfoldable pub trim_left : List ℕ → List ℕ
trim_left [] = []
trim_left (x ∷ xs) = let rest = trim_left xs in if x == quote then rest else x ∷ xs

unfoldable pub trim_right : List ℕ → List ℕ
trim_right [] = []
trim_right (x ∷ xs) =
    let rest = trim_right xs in
    elim rest [ [] ↦ if x == quote then [] else x ∷ [] | y ∷ ys ↦ x ∷ y ∷ ys ]

abbrev is_digit : ℕ → Bool
is_digit x = leb zero_digit x && leb x (zero_digit + 9)

abbrev number : ℕ → ℕ → ℕ
number a b = 10 * (a - zero_digit) + (b - zero_digit)

-- The hour of the day: `time.Parse` adds 12 after noon, and takes 12 before noon for 0.
abbrev hour_of_day : ℕ → Bool → ℕ
hour_of_day h after_noon =
    if after_noon && ltb h 12 then h + 12 else if not after_noon && h == 12 then 0 else h

-- `time.Parse` with the layout "03:04PM": two digits up to 12, two digits up to 59, and the half.
unfoldable pub parse_time : List ℕ → Option (ℕ × ℕ)
parse_time (a ∷ b ∷ c ∷ d ∷ e ∷ half ∷ m ∷ []) =
    if is_digit a
      && is_digit b
      && leb (number a b) 12
      && c == colon
      && is_digit d
      && is_digit e
      && ltb (number d e) 60
      && (half == letter_a || half == letter_p)
      && m == letter_m
    then some (hour_of_day (number a b) (half == letter_p), number d e)
    else none
parse_time _ = none

unfoldable pub unmarshal_text : List ℕ → Option (ℕ × ℕ)
unfolding trim_left trim_right
unmarshal_text b = parse_time (trim_right (trim_left b))

-- `%02d` of a number below 100.
abbrev two_digits : ℕ → List ℕ
two_digits n = (zero_digit + n / 10) ∷ (zero_digit + n % 10) ∷ []

unfoldable pub marshal_text : ℕ → ℕ → List ℕ
marshal_text h m =
    let after_noon = leb 12 h in
    two_digits (if after_noon then h - 12 else h)
    ++ colon ∷ two_digits m
    ++ (if after_noon then letter_p else letter_a) ∷ letter_m ∷ []

-- What `marshal_text` writes for a time of the day, `unmarshal_text` reads as that time.
pub unmarshal_text-marshal_text :
    (h m : ℕ) → h < 24 → m < 60 → unmarshal_text (marshal_text h m) ≡ some (h, m)
unfolding unmarshal_text marshal_text parse_time
unmarshal_text-marshal_text h m hh hm = ground arith
