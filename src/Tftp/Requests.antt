-- ===== src/Tftp/Requests.antt =====
-- The answer to a client's read request.
use backplane_flight_compute.Base.{
  ℕ, suc, ◌+◌, ◌-◌, ◌^◌, ◌≤◌, ◌<◌, ◌≡◌, refl, ap, ◌∙◌, Option, some, List, [], ◌∷◌, ◌++◌, length,
  drop, replicate, ◌==◌, false, arith, min,
}
use backplane_flight_compute.Tftp.File.{Files}
use backplane_flight_compute.Tftp.Ack.{receive_asynchronous, packet, Socket}
use backplane_flight_compute.Tftp.Server.{
  World, octet, send_file, handle_read_request, run, run_request, c_string, starts_with, mode_of,
}
use backplane_flight_compute.Tftp.Parts.{IsStored, IsAnswering}
use backplane_flight_compute.Tftp.Client.{client}
use backplane_flight_compute.Tftp.Delivery.{file_lem}

-- No byte of a name is 0.
abbrev pub IsText : List ℕ → Type 0
IsText [] = Unit
IsText (b ∷ bytes) = (0 < b) × IsText bytes

-- "octet" and its zero
abbrev octet_string : List ℕ
octet_string = 111 ∷ 99 ∷ 116 ∷ 101 ∷ 116 ∷ 0 ∷ []

-- The packet of a read request
abbrev pub request : List ℕ → List ℕ
request path = 0 ∷ 1 ∷ (path ++ (0 ∷ octet_string))

c_string-text :
    (path more zeros : List ℕ) → IsText path → c_string ((path ++ (0 ∷ more)) ++ zeros) ≡ path
unfolding c_string
c_string-text [] more zeros t = refl
c_string-text (b ∷ path) more zeros t =
    let positive : (b == 0) ≡ false = ground (arith, t.0) in
    rw positive (ap (λ bytes. b ∷ bytes) (c_string-text path more zeros t.1))

drop-text :
    (path more zeros : List ℕ)
    → drop (suc (length path)) ((path ++ (0 ∷ more)) ++ zeros) ≡ more ++ zeros
drop-text [] more zeros = refl
drop-text (b ∷ path) more zeros = drop-text path more zeros

mode_of-octet : (zeros : List ℕ) → mode_of (octet_string ++ zeros) ≡ octet
unfolding mode_of starts_with
mode_of-octet zeros = refl

module _ {F N : Type 0} (fs : Files F) (socket : Socket N) where
  served :
      (fuel waits : ℕ) (bytes filename : List ℕ) (w : World F N)
      → c_string (drop 2 bytes) ≡ filename
      → starts_with (116 ∷ 114 ∷ 101 ∷ 101 ∷ []) filename ≡ false
      → mode_of (drop (2 + min (length filename) 508 + 1) bytes) ≡ octet
      → handle_read_request fs socket fuel waits bytes w ≡ send_file fs socket fuel waits filename w
  unfolding handle_read_request
  served fuel waits bytes filename w e not_tree mode = rw (e, not_tree, mode) refl

  -- The request in the packet's array
  abbrev padded : List ℕ → List ℕ
  padded path = request path ++ replicate (512 - length (request path)) 0

  received_lem :
      (fuel waits : ℕ) (path : List ℕ) (w : World F N)
      → run fs socket fuel waits (packet (request path)) w
        ≡ handle_read_request fs socket fuel waits (padded path) w
  unfolding run run_request receive_asynchronous
  received_lem fuel waits path w =
      let arrived : (length (request path) == 0) ≡ false = ground arith in rw arrived refl

  -- On a file system that stores the file and a network that answers: for a file of less than 2 ^ 31 bytes
  -- and a name without zeros, of at most 500 bytes, that does not start with "tree", with fuel for one
  -- round more than the file has bytes, the server answers the read request with packets of which a
  -- client makes exactly the file.
  pub client_gets_file :
      (IsAt : ℕ → F → Type 0) (path content : List ℕ) (fuel waits : ℕ) (w : World F N)
      → IsStored fs IsAt path content
      → IsAnswering socket
      → length content < 2 ^ 31
      → IsText path
      → length path ≤ 500
      → starts_with (116 ∷ 114 ∷ 101 ∷ 101 ∷ []) path ≡ false
      → length content < fuel
      → (sent : List (Option (List ℕ))) × (w' : World F N) × (run fs socket fuel
            (suc waits)
            (packet (request path))
            w
          ≡ some (sent, w'))
        × (client 1 sent ≡ some content)
  client_gets_file IsAt path content fuel waits w stored answering small text short not_tree
        enough =
      let zeros : List ℕ = replicate (512 - length (request path)) 0 in
      let (sent, w', e, received) =
        file_lem fs socket IsAt path content stored answering small fuel waits w enough in
      let at : 2 + min (length path) 508 + 1 ≡ suc (suc (suc (length path))) = omega arith in
      (
        sent,
        w',
        received_lem fuel (suc waits) path w
            ∙ served fuel (suc waits) (padded path) path w
                (c_string-text path octet_string zeros text) not_tree
                (rw (at, drop-text path octet_string zeros) (mode_of-octet zeros))
            ∙ e,
        received,
      )
