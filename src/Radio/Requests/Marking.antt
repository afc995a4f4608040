-- ===== src/Radio/Requests/Marking.antt =====
-- The requests that the receive tenant marks.
use backplane_flight_compute.Base.{
  ℕ, suc, ◌-◌, ◌*◌, ◌/◌, ◌%◌, ◌^◌, ◌<◌, ◌≡◌, refl, ap, ◌∙◌, Bool, true, false, ◌||◌, some, List, [],
  ◌∷◌, ◌++◌, length, arith, bit_or, if◌then◌else◌, ◌==◌, word_of_bytes,
}
use backplane_flight_compute.Radio.HashMap.{
  HashMap, find, assign, contains, get, assign_at, is_some,
}
use backplane_flight_compute.Radio.HashMap.Entries.{find-assign}
use backplane_flight_compute.Radio.Receive.{mark_requests}

-- The ports as a request carries them: the high byte first
abbrev pub request_bytes : List ℕ → List ℕ
request_bytes [] = []
request_bytes (port ∷ ports) = port / 256 ∷ port % 256 ∷ request_bytes ports

abbrev pub member : ℕ → List ℕ → Bool
member j [] = false
member j (port ∷ ports) = (port == j) || member j ports

-- The ports of a request, each of 16 bits and with an entry in the map
abbrev pub AllKnown : HashMap Bool → List ℕ → Type 0
AllKnown requests [] = Unit {0}
AllKnown requests (port ∷ ports) =
    (port < 2 ^ 16) × (contains port requests ≡ true) × AllKnown requests ports

pub assign_at_lem :
    {V : Type 0} (key : ℕ) (value : V) (m : HashMap V)
    → contains key m ≡ true
    → assign_at key value m ≡ some (record m { entries = assign key value m.entries })
unfolding assign_at
assign_at_lem key value m h = rw h refl

pub contains-assign :
    {V : Type 0} (j key : ℕ) (value : V) (m : HashMap V)
    → contains j m ≡ true
    → is_some (find j (assign key value m.entries)) ≡ true
contains-assign j key value m h = ground (arith, find-assign j key value m.entries)

assign-AllKnown :
    (key : ℕ) (value : Bool) (m : HashMap Bool) (asked : List ℕ)
    → AllKnown m asked
    → AllKnown (record m { entries = assign key value m.entries }) asked
assign-AllKnown key value m [] v = tt
assign-AllKnown key value m (port ∷ asked) v =
    (v.0, contains-assign port key value m v.1, assign-AllKnown key value m asked v.2)

request_word : (port : ℕ) → port < 2 ^ 16 → bit_or (port / 256 * 256) (port % 256) ≡ port
request_word port h =
    omega (arith, word_of_bytes (port / 256) (port % 256) (omega arith) (omega arith))

mark_none :
    (bytes : List ℕ) (requests : HashMap Bool) → mark_requests bytes 0 requests ≡ some requests
unfolding mark_requests
mark_none [] requests = refl
mark_none (high ∷ []) requests = refl
mark_none (high ∷ low ∷ rest) requests = refl

mark_step :
    (high low left : ℕ) (rest : List ℕ) (requests r : HashMap Bool)
    → assign_at (bit_or (high * 256) low) true requests ≡ some r
    → mark_requests (high ∷ low ∷ rest) (2 * suc left) requests ≡ mark_requests rest (2 * left) r
unfolding mark_requests
mark_step high low left rest requests r e =
    let more : (2 * suc left == 0) ≡ false = ground arith in
    let k : 2 * suc left - 2 ≡ 2 * left = omega arith in
    rw more (rw e (ap (λ (i : ℕ). mark_requests rest i r) k))

-- A request for ports of the map ends; it marks those ports, and leaves the others.
pub mark_requests_lem :
    (asked padding : List ℕ) (requests : HashMap Bool)
    → AllKnown requests asked
    → (r : HashMap Bool) × (mark_requests
          (request_bytes asked ++ padding)
          (2 * length asked)
          requests
        ≡ some r)
      × ((j : ℕ) → get j r ≡ (if member j asked then some true else get j requests))
unfolding mark_requests
mark_requests_lem [] padding requests v = (requests, mark_none padding requests, λ j. refl)
mark_requests_lem (port ∷ asked) padding requests v =
    let m = record requests { entries = assign port true requests.entries } in
    let (r, e, marks) =
      mark_requests_lem asked padding m (assign-AllKnown port true requests asked v.2) in
    let word = request_word port v.0 in
    let assigned =
      ap (λ (key : ℕ). assign_at key true requests) word ∙ assign_at_lem port true requests v.1 in
    (
      r,
      mark_step (port / 256) (port % 256) (length asked) (request_bytes asked ++ padding) requests m
            assigned
          ∙ e,
      λ j. ground (arith, marks j, find-assign j port true requests.entries, v.1),
    )
