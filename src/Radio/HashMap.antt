-- ===== src/Radio/HashMap.antt =====
-- CHashMap (include/f_core/utils/c_hashmap.h). The std::unordered_map is the list of its entries, in the
-- order of its iteration. `none` is a call of k_oops, which ends the thread. `std::size_t` has 32 bits.
pub mod Entries
use backplane_flight_compute.Base.{
  ℕ, ◌+◌, ◌-◌, ◌%◌, ◌^◌, Bool, true, false, not, ◌&&◌, Option, none, some, List, [], ◌∷◌,
  if◌then◌else◌, ltb, ◌==◌,
}

module _ {V : Type 0} where
  -- `map.at`, if `map.contains`
  unfoldable pub find : ℕ → List (ℕ × V) → Option V
  find key [] = none
  find key ((k, v) ∷ entries) = if k == key then some v else find key entries

  -- `map[key] = value` of a key that is there
  unfoldable pub assign : ℕ → V → List (ℕ × V) → List (ℕ × V)
  assign key value [] = []
  assign key value ((k, v) ∷ entries) =
      if k == key then (k, value) ∷ entries else (k, v) ∷ assign key value entries

  unfoldable pub erase : ℕ → List (ℕ × V) → List (ℕ × V)
  erase key [] = []
  erase key ((k, v) ∷ entries) = if k == key then erase key entries else (k, v) ∷ erase key entries

pub record HashMap (V : Type 0) : Type 0 where
  pub entries : List (ℕ × V)
  pub size : ℕ
  pub max_size_reached_at_startup : ℕ

abbrev pub is_some : {V : Type 0} → Option V → Bool
is_some none = false
is_some (some v) = true

module _ {V : Type 0} where
  abbrev pub empty : HashMap V
  empty = record { entries = []; size = 0; max_size_reached_at_startup = 0 }

  abbrev pub contains : ℕ → HashMap V → Bool
  contains key m = is_some (find key m.entries)

  abbrev pub get : ℕ → HashMap V → Option V
  get key m = find key m.entries

  -- `is_main` is isMainThreadCurrent.
  unfoldable pub insert : Bool → ℕ → V → HashMap V → Option (Bool × HashMap V)
  insert is_main key value m =
      let size = (m.size + 1) % 2 ^ 32 in
      if not is_main && (not (contains key m) && ltb m.max_size_reached_at_startup m.size)
      then none
      else some (
        not (contains key m),
        record {
          entries = if contains key m then m.entries else (key, value) ∷ m.entries;
          size = size;
          max_size_reached_at_startup =
              if ltb m.max_size_reached_at_startup size
              then size
              else m.max_size_reached_at_startup;
        },
      )

  unfoldable pub set : ℕ → V → HashMap V → Bool × HashMap V
  set key value m =
      if contains key m
      then (true, record m { entries = assign key value m.entries })
      else (false, m)

  unfoldable pub remove : ℕ → HashMap V → Bool × HashMap V
  remove key m = (
    contains key m,
    record m { entries = erase key m.entries; size = (m.size + 2 ^ 32 - 1) % 2 ^ 32 },
  )

  -- `map[key] = value` by operator[]
  unfoldable pub assign_at : ℕ → V → HashMap V → Option (HashMap V)
  assign_at key value m =
      if not (contains key m)
      then none
      else some (record m { entries = assign key value m.entries })
