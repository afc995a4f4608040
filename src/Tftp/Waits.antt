-- ===== src/Tftp/Waits.antt =====
-- How a wait for an acknowledgement goes: which receives it passes over, and which one ends it.
use backplane_flight_compute.Base.{
  ℕ, zero, suc, ◌<◌, ◌≡◌, refl, Bool, none, some, length, ◌==◌, false, true, Bool-cases, inl, inr,
  ◌&&◌, arith,
}
use backplane_flight_compute.Zephyr.{Code, success, error, eperm, value}
use backplane_flight_compute.Tftp.Ack.{
  Received, packet, unreceived, no_flags, Socket, done, again, word_at, check_ack,
  receive_asynchronous, after_receive, wait_for_ack,
}

-- A receive with nothing there, or with less than the four bytes of an acknowledgement
abbrev pub IsShort : (ℕ → Bool) → Received → Type 0
IsShort blocks (packet bytes) = length bytes < 4
IsShort blocks (unreceived errno) = blocks errno ≡ true
IsShort blocks (no_flags errno) = ⊥

-- One with four bytes, or a failure with a number that does not say to come back
abbrev pub IsDecisive : (ℕ → Bool) → Received → Type 0
IsDecisive blocks (packet bytes) = length bytes ≡ 4
IsDecisive blocks (unreceived errno) = (blocks errno ≡ false) × (0 < errno)
IsDecisive blocks (no_flags errno) = (blocks errno ≡ false) × (0 < errno)

-- The four bytes are ACK, which is 4, and the number of the block.
abbrev pub IsAck : ℕ → Received → Type 0
IsAck block_num (packet bytes) = (word_at bytes 0 ≡ 4) × (word_at bytes 2 ≡ block_num)
IsAck block_num (unreceived errno) = ⊥
IsAck block_num (no_flags errno) = ⊥

module _ {N : Type 0} (socket : Socket N) where
  -- The network after so many receives of a wait
  abbrev pub after : ℕ → N → N
  after zero n = n
  after (suc k) n = after k (socket.receive 4 n).1

  short_round :
      (received : Received) (retries block_num : ℕ) (n : N)
      → IsShort socket.blocks received
      → after_receive socket (receive_asynchronous socket.blocks received) retries block_num n
        ≡ again retries n
  unfolding after_receive receive_asynchronous
  short_round (packet ack) retries block_num n short =
      let other : (length ack == 4) ≡ false = ground arith in rw other refl
  short_round (unreceived errno) retries block_num n short = rw short refl
  short_round (no_flags errno) retries block_num n short = absurd short

  decisive_round :
      (received : Received) (retries block_num : ℕ) (n : N)
      → IsDecisive socket.blocks received
      → (c : Code) × (after_receive socket
            (receive_asynchronous socket.blocks received)
            retries
            block_num
            n
          ≡ done c n)
        × (c ≡ success → IsAck block_num received)
        × (IsAck block_num received → c ≡ success)
  unfolding after_receive receive_asynchronous check_ack
  decisive_round (packet ack) retries block_num n whole =
      elim (Bool-cases ((word_at ack 0 == 4) && (word_at ack 2 == block_num))) [
        | inl ok ↦
            (success, rw (whole, ok) refl, λ k. (ground (arith, ok), ground (arith, ok)), λ k. refl)
        | inr wrong ↦ (
          error eperm,
          rw (whole, wrong) refl,
          λ k. absurd (ground (arith, k)),
          λ k. absurd (ground (arith, k, wrong)),
        )
      ]
  decisive_round (unreceived errno) retries block_num n (other, above) =
      (value errno, rw (other, other) refl, λ k. absurd (ground (arith, k, above)), λ k. absurd k)
  decisive_round (no_flags errno) retries block_num n (other, above) =
      (value errno, rw other refl, λ k. absurd (ground (arith, k, above)), λ k. absurd k)

  -- Receives that are short, a number of them, and then one that is decisive: with fuel for one test of the
  -- loop more than there were short ones, the wait ends after exactly these receives, and it ends with 0
  -- exactly if the decisive one is the acknowledgement of its block.
  pub wait_for_ack_lem :
      (shorts fuel block_num : ℕ) (n : N)
      → ((i : ℕ) → i < shorts → IsShort socket.blocks (socket.receive 4 (after i n)).0)
      → IsDecisive socket.blocks (socket.receive 4 (after shorts n)).0
      → shorts < fuel
      → (c : Code) × (wait_for_ack socket fuel 0 block_num n ≡ some (c, after (suc shorts) n))
        × (c ≡ success → IsAck block_num (socket.receive 4 (after shorts n)).0)
        × (IsAck block_num (socket.receive 4 (after shorts n)).0 → c ≡ success)
  unfolding wait_for_ack
  wait_for_ack_lem shorts zero block_num n short decisive enough = absurd (omega arith)
  wait_for_ack_lem zero (suc fuel) block_num n short decisive enough =
      let (c, e, acked, acks) =
        decisive_round (socket.receive 4 n).0 0 block_num (socket.receive 4 n).1 decisive in
      (c, rw e refl, acked, acks)
  wait_for_ack_lem (suc shorts) (suc fuel) block_num n short decisive enough =
      let e =
        short_round (socket.receive 4 n).0 0 block_num (socket.receive 4 n).1
          (short 0 (omega arith)) in
      let (c, e', acked, acks) =
        wait_for_ack_lem shorts fuel block_num (socket.receive 4 n).1
          (λ i lt. short (suc i) (omega (arith, lt))) decisive (omega arith) in
      (c, rw (e, e') refl, acked, acks)

  -- On a socket of which every receive is short, with nothing there or less than four bytes: a wait never
  -- ends, however much fuel it has, since such a receive is not counted as a retry.
  pub short_packets_hold_server :
      (fuel block_num : ℕ) (n : N)
      → ((m : N) → IsShort socket.blocks (socket.receive 4 m).0)
      → wait_for_ack socket fuel 0 block_num n ≡ none
  unfolding wait_for_ack
  short_packets_hold_server zero block_num n short = refl
  short_packets_hold_server (suc fuel) block_num n short =
      let e = short_round (socket.receive 4 n).0 0 block_num (socket.receive 4 n).1 (short n) in
      rw e (short_packets_hold_server fuel block_num (socket.receive 4 n).1 short)
