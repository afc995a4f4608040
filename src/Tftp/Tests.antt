-- ===== src/Tftp/Tests.antt =====
-- The server on a file in memory and a client that acknowledges what it gets.
use backplane_flight_compute.Base.{
  ℕ, zero, suc, ◌<◌, ◌==◌, ◌+◌, ◌≡◌, refl, sym, ap, Option, none, some, List, [], ◌∷◌, length, take,
  drop, replicate, get_or, arith, false,
}
use backplane_flight_compute.Zephyr.{Code, value, success, error, eio}
use backplane_flight_compute.Tftp.File.{Files, File}
use backplane_flight_compute.Tftp.File as File
use backplane_flight_compute.Tftp.Ack.{
  Received, packet, unreceived, Socket, wait_for_ack, after_receive, check_ack,
  receive_asynchronous,
}
use backplane_flight_compute.Tftp.Server.{World, run, starts_with}
use backplane_flight_compute.Tftp.Waits.{
  IsShort, IsAck, after, wait_for_ack_lem, short_packets_hold_server,
}
use backplane_flight_compute.Tftp.Parts.{IsStored, opened_file}
use backplane_flight_compute.Tftp.Client.{client}
use backplane_flight_compute.Tftp.Requests.{request, client_gets_file}

-- A file of 600 bytes, with the position in it as the state
abbrev memory_content : List ℕ
memory_content = replicate 600 7

abbrev memory : Files ℕ
memory = record {
  fs_open = λ path flags f. (success, 0);
  fs_close = λ f. 0;
  fs_stat = λ path f. (success, length memory_content);
  fs_seek = λ pos f. (success, pos);
  fs_read = λ len f.
      let bytes = take len (drop f memory_content) in
      (value (length bytes), bytes, f + length bytes);
  fs_write = λ bytes f. (value (length bytes), f);
  number = λ e. 5;
}

memory-IsStored : IsStored memory (λ pos f. pos ≡ f) (97 ∷ []) memory_content
memory-IsStored = record {
  opened = λ f. (refl, refl);
  measured = λ f. refl;
  sought = λ p pos f at le. (refl, refl);
  reads = λ p len f at. (
    ap (λ q. value (length (take len (drop q memory_content)))) (sym at),
    ap (λ q. take len (drop q memory_content)) (sym at),
    ap (λ q. q + length (take len (drop q memory_content))) at,
  );
}

-- The client has the last packet, and acknowledges its block.
abbrev acknowledges : Option (List ℕ) → Received
acknowledges none = unreceived 11
acknowledges (some bytes) = packet (0 ∷ 4 ∷ get_or bytes 2 0 ∷ get_or bytes 3 0 ∷ [])

abbrev loopback : Socket (Option (List ℕ))
loopback = record {
  blocks = λ errno. errno == 11;
  receive = λ len n. (acknowledges n, n);
  transmit = λ sent n. sent;
  sleep_ms = λ ms n. n;
}

abbrev idle : World ℕ (Option (List ℕ))
idle = record { files = 0; net = none }

plain_name : starts_with (116 ∷ 114 ∷ 101 ∷ 101 ∷ []) (97 ∷ []) ≡ false
unfolding starts_with
plain_name = refl

client_gets_file_example :
    (sent : List (Option (List ℕ))) × (w' : World ℕ (Option (List ℕ))) × (run memory loopback 700 1
        (packet (request (97 ∷ [])))
        idle
      ≡ some (sent, w'))
    × (client 1 sent ≡ some memory_content)
client_gets_file_example =
    client_gets_file memory loopback (λ pos f. pos ≡ f) (97 ∷ []) memory_content 700 0 idle
      memory-IsStored (record { answers = λ block_number bytes n small. refl }) (omega arith)
      (omega arith, tt) (omega arith) plain_name (omega arith)

-- Two times nothing is there, then the acknowledgement of block 1 is; the state counts the receives.
abbrev late : ℕ → Received
late zero = unreceived 11
late (suc zero) = unreceived 11
late (suc (suc n)) = packet (0 ∷ 4 ∷ 0 ∷ 1 ∷ [])

abbrev slow : Socket ℕ
slow = record {
  blocks = λ errno. errno == 11;
  receive = λ len n. (late n, suc n);
  transmit = λ sent n. n;
  sleep_ms = λ ms n. n;
}

late-IsShort : (i : ℕ) → i < 2 → IsShort slow.blocks (slow.receive 4 (after slow i 0)).0
late-IsShort zero h = refl
late-IsShort (suc zero) h = refl
late-IsShort (suc (suc i)) h = absurd (omega arith)

wait_for_ack_lem_example :
    (c : Code) × (wait_for_ack slow 3 0 1 0 ≡ some (c, 3))
    × (c ≡ success → IsAck 1 (packet (0 ∷ 4 ∷ 0 ∷ 1 ∷ [])))
    × (IsAck 1 (packet (0 ∷ 4 ∷ 0 ∷ 1 ∷ [])) → c ≡ success)
wait_for_ack_lem_example = wait_for_ack_lem slow 2 3 1 0 late-IsShort refl (omega arith)

-- Nothing ever arrives.
abbrev noisy : Socket ℕ
noisy = record {
  blocks = λ errno. errno == 11;
  receive = λ len n. (unreceived 11, n);
  transmit = λ sent n. n;
  sleep_ms = λ ms n. n + ms;
}

short_packets_hold_server_example : wait_for_ack noisy 1000 0 1 0 ≡ none
short_packets_hold_server_example = short_packets_hold_server noisy 1000 1 0 (λ m. refl)

-- No read succeeds.
abbrev broken : Files ℕ
broken = record {
  fs_open = λ path flags f. (success, 0);
  fs_close = λ f. 0;
  fs_stat = λ path f. (success, 3);
  fs_seek = λ pos f. (success, pos);
  fs_read = λ len f. (error eio, [], f);
  fs_write = λ bytes f. (error eio, f);
  number = λ e. 5;
}

-- The client acknowledges block 1 whatever it gets.
abbrev eager : Socket ℕ
eager = record {
  blocks = λ errno. errno == 11;
  receive = λ len n. (packet (0 ∷ 4 ∷ 0 ∷ 1 ∷ []), n);
  transmit = λ sent n. n;
  sleep_ms = λ ms n. n + ms;
}

broken_read : File.read broken (opened_file (97 ∷ [])) 512 0 0 ≡ (error eio, [], 0)
unfolding File.read
broken_read = refl

eager_wait : wait_for_ack eager 1 0 1 0 ≡ some (success, 0)
unfolding wait_for_ack after_receive check_ack receive_asynchronous
eager_wait = refl
