-- ===== src/Radio/HashMap/Entries.antt =====
-- The operations of the map as those of a partial function of its keys.
use mathlib.Core.Path.{fun_ext}
use backplane_flight_compute.Base.{
  ℕ, suc, ◌+◌, ◌-◌, ◌%◌, ◌^◌, ◌≤◌, ◌<◌, ◌≡◌, refl, ap, ◌∙◌, Bool, true, false, not, ltb, ◌&&◌,
  Option, none, some, List, [], ◌∷◌, if◌then◌else◌, ◌==◌, arith, inl, inr, Bool-cases,
}
use backplane_flight_compute.Radio.HashMap.{
  HashMap, find, assign, erase, is_some, contains, get, insert, set, remove, assign_at,
}

module _ {V : Type 0} where
  pub find-assign :
      (j key : ℕ) (value : V) (entries : List (ℕ × V))
      → find j (assign key value entries)
        ≡ (if (key == j) && is_some (find key entries) then some value else find j entries)
  unfolding find assign
  find-assign j key value [] = ground arith
  find-assign j key value ((k, v) ∷ entries) = ground (arith, find-assign j key value entries)

  find-erase :
      (j key : ℕ) (entries : List (ℕ × V))
      → find j (erase key entries) ≡ (if key == j then none else find j entries)
  unfolding find erase
  find-erase j key [] = ground arith
  find-erase j key ((k, v) ∷ entries) = ground (arith, find-erase j key entries)

-- A sequence of calls, with their results
abbrev pub and_result : {S : Type 0} → Bool → Option (List Bool × S) → Option (List Bool × S)
and_result b none = none
and_result b (some (bs, s)) = some (b ∷ bs, s)

abbrev pub then_calls :
    {S : Type 0} → Option (Bool × S) → (S → Option (List Bool × S)) → Option (List Bool × S)
then_calls none rest = none
then_calls (some (b, s)) rest = and_result b (rest s)

-- A call on the map; an insertion is the main thread's, as at startup, or another's.
pub data Operation (V : Type 0) : Type 0 where
  inserted : (is_main : Bool) → ℕ → V → Operation V
  assigned updated : ℕ → V → Operation V
  removed : ℕ → Operation V

module _ {V : Type 0} where
  -- What the map holds
  abbrev pub holding : HashMap V → ℕ → Option V
  holding m j = get j m

  abbrev pub with_key : ℕ → Option V → (ℕ → Option V) → ℕ → Option V
  with_key key value f j = if key == j then value else f j

  abbrev pub returned : Option (HashMap V) → Option (Bool × HashMap V)
  returned none = none
  returned (some m) = some (true, m)

  abbrev pub call : Operation V → HashMap V → Option (Bool × HashMap V)
  call (inserted is_main key value) m = insert is_main key value m
  call (updated key value) m = some (set key value m)
  call (removed key) m = some (remove key m)
  call (assigned key value) m = returned (assign_at key value m)

  -- What each call is to do: an insertion gives a value to a key that has none, a setting and an assignment
  -- to one that has a value, and an assignment of a key without one ends the thread. No insertion does.
  abbrev pub meaning : Operation V → (ℕ → Option V) → Option (Bool × (ℕ → Option V))
  meaning (inserted is_main key value) f =
      if is_some (f key) then some (false, f) else some (true, with_key key (some value) f)
  meaning (updated key value) f =
      if is_some (f key) then some (true, with_key key (some value) f) else some (false, f)
  meaning (removed key) f = some (is_some (f key), with_key key none f)
  meaning (assigned key value) f =
      if is_some (f key) then some (true, with_key key (some value) f) else none

  abbrev pub viewed : Option (Bool × HashMap V) → Option (Bool × (ℕ → Option V))
  viewed none = none
  viewed (some (b, m)) = some (b, holding m)

  holding-assign :
      (key : ℕ) (value : V) (m : HashMap V)
      → contains key m ≡ true
      → (λ j. find j (assign key value m.entries)) ≡ with_key key (some value) (holding m)
  holding-assign key value m h = fun_ext λ j. ground (arith, find-assign j key value m.entries)

  -- One equation of what the map holds gives one of what a call gives.
  giving :
      {f g : ℕ → Option V} (b : Bool)
      → f ≡ g
      → ◌≡◌ {A = Option (Bool × (ℕ → Option V))} (some (b, f)) (some (b, g))
  giving b e = rw e refl

  assigned_lem :
      (key : ℕ) (value : V) (m : HashMap V)
      → assign_at key value m ≡ (
          if contains key m then some (record m { entries = assign key value m.entries }) else none)
  unfolding assign_at
  assigned_lem key value m = ground arith

  -- Not more entries are counted than were at the largest count.
  abbrev pub IsCounted : HashMap V → Type 0
  IsCounted m = m.size ≤ m.max_size_reached_at_startup

  pub call_lem :
      (op : Operation V) (m : HashMap V) → IsCounted m → viewed (call op m) ≡ meaning op (holding m)
  unfolding insert set remove find
  call_lem (inserted is_main key value) m counted =
      let below : ltb m.max_size_reached_at_startup m.size ≡ false = ground arith in
      let passed : (not is_main && (not (contains key m) && false)) ≡ false = ground arith in
      elim (Bool-cases (contains key m)) [
        | inl old ↦ rw (below, passed, old) refl
        | inr new ↦ rw (below, passed, new) refl
      ]
  call_lem (updated key value) m counted = elim (Bool-cases (contains key m)) [
    | inl old ↦ rw old (giving true (holding-assign key value m old))
    | inr new ↦ rw new refl
  ]
  call_lem (removed key) m counted =
      giving (contains key m) (fun_ext λ j. find-erase j key m.entries)
  call_lem (assigned key value) m counted =
      rw (assigned_lem key value m) (elim (Bool-cases (contains key m)) [
        | inl old ↦ rw old (giving true (holding-assign key value m old))
        | inr new ↦ rw new refl
      ])

  abbrev pub calls : List (Operation V) → HashMap V → Option (List Bool × HashMap V)
  calls [] m = some ([], m)
  calls (op ∷ ops) m = then_calls (call op m) (calls ops)

  abbrev pub meanings : List (Operation V) → (ℕ → Option V) → Option (List Bool × (ℕ → Option V))
  meanings [] f = some ([], f)
  meanings (op ∷ ops) f = then_calls (meaning op f) (meanings ops)

  abbrev pub outcome : Option (List Bool × HashMap V) → Option (List Bool × (ℕ → Option V))
  outcome none = none
  outcome (some (bs, m)) = some (bs, holding m)

  outcome-and_result :
      (b : Bool) (r : Option (List Bool × HashMap V))
      → outcome (and_result b r) ≡ and_result b (outcome r)
  outcome-and_result b none = refl
  outcome-and_result b (some r) = refl

  -- From this count on, the calls neither remove from a count of 0 nor reach 2 ^ 32.
  abbrev pub NeverWraps : List (Operation V) → ℕ → Type 0
  NeverWraps [] n = Unit {0}
  NeverWraps (inserted is_main key value ∷ ops) n = (suc n < 2 ^ 32) × NeverWraps ops (suc n)
  NeverWraps (removed key ∷ ops) n = (0 < n) × NeverWraps ops (n - 1)
  NeverWraps (assigned key value ∷ ops) n = NeverWraps ops n
  NeverWraps (updated key value ∷ ops) n = NeverWraps ops n

  -- What holds of the map after a call, if the thread goes on
  abbrev EveryMap : (HashMap V → Type 0) → Option (Bool × HashMap V) → Type 0
  EveryMap P none = Unit {0}
  EveryMap P (some (b, m)) = P m

  call-IsReady :
      (op : Operation V) (ops : List (Operation V)) (m : HashMap V)
      → IsCounted m
      → m.size < 2 ^ 32
      → NeverWraps (op ∷ ops) m.size
      → EveryMap (λ m'. IsCounted m' × (m'.size < 2 ^ 32) × NeverWraps ops m'.size) (call op m)
  unfolding insert set remove
  call-IsReady (inserted is_main key value) ops m counted small (fits, rest) =
      let below : ltb m.max_size_reached_at_startup m.size ≡ false = ground arith in
      let passed : (not is_main && (not (contains key m) && false)) ≡ false = ground arith in
      let e : (m.size + 1) % 2 ^ 32 ≡ suc m.size = omega arith in
      elim (Bool-cases (ltb m.max_size_reached_at_startup (suc m.size))) [
        | inl more ↦ rw (below, passed, e, more) (omega arith, fits, rest)
        | inr less ↦ rw (below, passed, e, less) (ground (arith, less), fits, rest)
      ]
  call-IsReady (removed key) ops m counted small (above, rest) =
      let e : (m.size + 2 ^ 32 - 1) % 2 ^ 32 ≡ m.size - 1 = omega arith in
      rw e (omega arith, omega arith, rest)
  call-IsReady (updated key value) ops m counted small rest = elim (Bool-cases (contains key m)) [
    | inl old ↦ rw old (counted, small, rest)
    | inr new ↦ rw new (counted, small, rest)
  ]
  call-IsReady (assigned key value) ops m counted small rest =
      rw (assigned_lem key value m) (elim (Bool-cases (contains key m)) [
        | inl old ↦ rw old (counted, small, rest)
        | inr new ↦ rw new tt
      ])

  outcome-then_calls :
      (P : HashMap V → Type 0) (r : Option (Bool × HashMap V)) (ops : List (Operation V))
      → EveryMap P r
      → ((m : HashMap V) → P m → outcome (calls ops m) ≡ meanings ops (holding m))
      → outcome (then_calls r (calls ops)) ≡ then_calls (viewed r) (meanings ops)
  outcome-then_calls P none ops v rest = refl
  outcome-then_calls P (some (b, m)) ops v rest =
      rw (outcome-and_result b (calls ops m)) (rw (rest m v) refl)

  -- A sequence of calls of the hash map, the insertions by whatever threads, from a state that counts no more
  -- entries than its largest count and whose count the calls do not wrap, gives the results that the same
  -- calls on the partial function of its keys give, leaves the map holding what that function becomes, and
  -- ends the thread where the function's calls do: no thread's insertion of a new key is refused.
  pub calls_lem :
      (ops : List (Operation V)) (m : HashMap V)
      → m.size ≤ m.max_size_reached_at_startup
      → m.size < 2 ^ 32
      → NeverWraps ops m.size
      → outcome (calls ops m) ≡ meanings ops (holding m)
  calls_lem [] m counted small rest = refl
  calls_lem (op ∷ ops) m counted small rest =
      outcome-then_calls (λ m'. IsCounted m' × (m'.size < 2 ^ 32) × NeverWraps ops m'.size)
        (call op m) ops (call-IsReady op ops m counted small rest)
        (λ m' v. calls_lem ops m' v.0 v.1 v.2)
      ∙ ap (λ r. then_calls r (meanings ops)) (call_lem op m counted)
