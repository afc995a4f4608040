-- ===== src/Tftp/Client.antt =====
-- A client of TFTP, as a description of what the server is to send.
use backplane_flight_compute.Base.{
  ℕ, zero, suc, ◌+◌, ◌*◌, ◌/◌, ◌%◌, ◌^◌, ◌≤◌, ◌<◌, ◌≡◌, refl, sym, ap, ◌∙◌, ◌&&◌, Option, none,
  some, List, [], ◌∷◌, ◌++◌, length, take, drop, ltb, leb, ◌==◌, if◌then◌else◌, true, false, arith,
}
use backplane_flight_compute.Tftp.Ack.{data_opcode, word_at}
use backplane_flight_compute.Tftp.Server.{header}

-- The data of a packet, if it is the data packet of this block.
unfoldable pub data_of : ℕ → Option (List ℕ) → Option (List ℕ)
data_of block_number none = none
data_of block_number (some bytes) =
    if (word_at bytes 0 == data_opcode) && (word_at bytes 2 == block_number) && leb 4 (length bytes)
    then some (drop 4 bytes)
    else none

-- A client of TFTP: it takes the blocks in order, and the first one of less than 512 bytes ends the file.
-- Nothing may follow that block.
unfoldable pub client : ℕ → List (Option (List ℕ)) → Option (List ℕ)
client block_number [] = none
client block_number (p ∷ ps) = elim (data_of block_number p) [
  | none ↦ none
  | some bytes ↦
      if ltb (length bytes) 512
      then (if length ps == 0 then some bytes else none)
      else elim (client ((block_number + 1) % 2 ^ 16) ps) [
        | none ↦ none
        | some more ↦ some (bytes ++ more)
      ]
]

pub data_of-header :
    (block_number : ℕ) (bytes : List ℕ)
    → data_of block_number (some (header block_number ++ bytes)) ≡ some bytes
unfolding data_of
data_of-header block_number bytes =
    let same : (block_number / 2 ^ 8 * 2 ^ 8 + block_number % 2 ^ 8 == block_number) ≡ true =
      ground arith in
    let long : leb 4 (suc (suc (suc (suc (length bytes))))) ≡ true = ground arith in
    rw (same, long) refl

pub client-last :
    (block_number : ℕ) (p : Option (List ℕ)) (bytes : List ℕ)
    → data_of block_number p ≡ some bytes
    → length bytes < 512
    → client block_number (p ∷ []) ≡ some bytes
unfolding client
client-last block_number p bytes e short =
    let is_last : ltb (length bytes) 512 ≡ true = ground arith in rw (e, is_last, client) refl

pub client-more :
    (block_number : ℕ) (p : Option (List ℕ)) (bytes more : List ℕ) (ps : List (Option (List ℕ)))
    → data_of block_number p ≡ some bytes
    → length bytes ≡ 512
    → client ((block_number + 1) % 2 ^ 16) ps ≡ some more
    → client block_number (p ∷ ps) ≡ some (bytes ++ more)
unfolding client
client-more block_number p bytes more ps e full e' =
    let goes_on : ltb (length bytes) 512 ≡ false = ground arith in rw (e, goes_on, e', client) refl

drop_nil : (n : ℕ) → drop {A = ℕ} n [] ≡ []
drop_nil zero = refl
drop_nil (suc n) = refl

pub drop-drop : (n m k : ℕ) (xs : List ℕ) → k ≡ m + n → drop n (drop m xs) ≡ drop k xs
drop-drop n zero k xs e = ap (λ j. drop j xs) (omega (arith, e))
drop-drop n (suc m) k [] e = drop_nil n ∙ sym (drop_nil k)
drop-drop n (suc m) zero (x ∷ xs) e = absurd (omega (arith, e))
drop-drop n (suc m) (suc k) (x ∷ xs) e = drop-drop n m k xs (omega (arith, e))

pub drop_end : (n : ℕ) (xs : List ℕ) → length xs ≤ n → drop n xs ≡ []
drop_end n [] h = drop_nil n
drop_end zero (x ∷ xs) h = absurd (omega (arith, h))
drop_end (suc n) (x ∷ xs) h = drop_end n xs (omega (arith, h))

pub take_end : (n : ℕ) (xs : List ℕ) → length xs ≤ n → take n xs ≡ xs
take_end zero [] h = refl
take_end (suc n) [] h = refl
take_end zero (x ∷ xs) h = absurd (omega (arith, h))
take_end (suc n) (x ∷ xs) h = ap (λ ys. x ∷ ys) (take_end n xs (omega (arith, h)))

-- The length of a file that ends within a block
pub ragged :
    (offset size : ℕ)
    → offset % 512 ≡ 0
    → offset < size
    → size < offset + 512
    → (size % 512 == 0) ≡ false
ragged offset size whole lt short = ground arith
