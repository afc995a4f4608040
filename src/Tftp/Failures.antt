-- ===== src/Tftp/Failures.antt =====
-- What the server does with a read of the file that fails.
use backplane_flight_compute.Base.{
  ℕ, zero, suc, ◌+◌, ◌-◌, ◌%◌, ◌^◌, ◌<◌, ◌≡◌, refl, ap, ◌∙◌, Option, none, some, List, [], ◌∷◌,
  take, if◌then◌else◌, ltb, leb, ◌==◌, true, false, arith,
}
use backplane_flight_compute.Zephyr.{Errno, success, error}
use backplane_flight_compute.Tftp.File.{Files, File}
use backplane_flight_compute.Tftp.File as File
use backplane_flight_compute.Tftp.Ack.{Socket}
use backplane_flight_compute.Tftp.Server.{
  World, header, response, portion, after_read, round, read_size, transmit_and_wait,
}

-- The block that is made of a read that fails with the number `n`
abbrev pub wrong_block : ℕ → ℕ → Option (List ℕ)
wrong_block block_number n = if ltb 4 n then none else some (take (4 - n) (header block_number))

portion_failed :
    (block_number n : ℕ)
    → 0 < n
    → n < 2 ^ 31
    → portion (response block_number []) ((2 ^ 32 - n + 4) % 2 ^ 32) ≡ wrong_block block_number n
unfolding response
portion_failed block_number zero positive small = absurd (omega arith)
portion_failed block_number (suc zero) positive small = refl
portion_failed block_number (suc (suc zero)) positive small = refl
portion_failed block_number (suc (suc (suc zero))) positive small = refl
portion_failed block_number (suc (suc (suc (suc zero)))) positive small = refl
portion_failed block_number (suc (suc (suc (suc (suc n))))) positive small =
    let size : ℕ = (2 ^ 32 - suc (suc (suc (suc (suc n)))) + 4) % 2 ^ 32 in
    let outside : leb size 516 ≡ false = ground arith in
    let wrong : ltb 4 (suc (suc (suc (suc (suc n))))) ≡ true = ground arith in
    rw (outside, wrong) refl

-- A read that fails with a code of number n, above 0 and below 2 ^ 31, is not noticed: for n above 4 the
-- transmitted bytes lie partly outside the array, else a packet shorter than its header is sent; and once
-- the block is acknowledged the loop goes on, with the code as the number of bytes sent.
failed_read_is_sent :
    {F N : Type 0} (fs : Files F) (socket : Socket N) (waits : ℕ) (file : File)
    (block_number offset : ℕ) (w : World F N) (e : Errno) (f : F) (n : N)
    → File.read fs file 512 offset w.files ≡ (error e, [], f)
    → 0 < fs.number e
    → fs.number e < 2 ^ 31
    → transmit_and_wait socket waits block_number (wrong_block block_number (fs.number e)) w.net
      ≡ some (success, n)
    → round fs socket waits file block_number offset w
      ≡ some (record {
        sent = wrong_block block_number (fs.number e) ∷ [];
        read_len = some (2 ^ 32 - fs.number e);
        world = record { files = f; net = n };
      })
unfolding round after_read read_size
failed_read_is_sent fs socket waits file block_number offset w e f n failed positive small acked =
    let nonzero : (2 ^ 32 - fs.number e == 0) ≡ false = ground arith in
    let block = portion_failed block_number (fs.number e) positive small in
    ap (after_read fs socket waits block_number w.net) failed
    ∙ rw (nonzero, block, acked, block) refl
