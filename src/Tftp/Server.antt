-- ===== src/Tftp/Server.antt =====
-- CTftpServerTenant::Run, handleReadRequest and generateTree. A call gives what it handed to
-- `TransmitAsynchronous`, and `none` when the fuel of one of its loops is used up.
use backplane_flight_compute.Base.{
  ℕ, zero, suc, ◌+◌, ◌-◌, ◌/◌, ◌%◌, ◌^◌, Bool, true, false, not, ◌&&◌, Option, none, some, List, [],
  ◌∷◌, ◌++◌, if◌then◌else◌, ltb, leb, ◌==◌, length, take, drop, replicate, min,
}
use backplane_flight_compute.Zephyr.{Code, value, error, eperm, is_negative, is_nonzero}
use backplane_flight_compute.Tftp.File.{
  Files, File, fs_o_read, fs_o_write, fs_o_create, is_below_zero, open_file, close_file,
  get_file_size,
}
use backplane_flight_compute.Tftp.File as File
use backplane_flight_compute.Tftp.Ack.{
  Received, Returned, bytes_of, minus_one, receive_asynchronous, Socket, rrq, data_opcode, word_at,
  wait_for_ack,
}

-- The file system and the network
pub record World (F N : Type 0) : Type 0 where
  pub files : F
  pub net : N

pub data TftpMode : Type 0 where
  netascii octet mail undefined_tftp_mode : TftpMode

-- `rwRequestPacketSize`
abbrev pub rw_request_packet_size : ℕ
rw_request_packet_size = 512

abbrev pub max_filename_len : ℕ
max_filename_len = rw_request_packet_size - 8 + 4

abbrev pub max_data_size : ℕ
max_data_size = 512

-- The C string at the start of these bytes
unfoldable pub c_string : List ℕ → List ℕ
c_string [] = []
c_string (b ∷ bytes) = if b == 0 then [] else b ∷ c_string bytes

unfoldable pub starts_with : List ℕ → List ℕ → Bool
starts_with [] bytes = true
starts_with (c ∷ cs) [] = false
starts_with (c ∷ cs) (b ∷ bytes) = (c == b) && starts_with cs bytes

-- The loop over `tftpModeStrings`; a string is compared with its last zero. One that runs past the packet
-- is taken for none of them.
unfoldable pub mode_of : List ℕ → TftpMode
unfolding starts_with
mode_of bytes =
    if starts_with (110 ∷ 101 ∷ 116 ∷ 97 ∷ 115 ∷ 99 ∷ 105 ∷ 105 ∷ 0 ∷ []) bytes
    then netascii
    else if starts_with (111 ∷ 99 ∷ 116 ∷ 101 ∷ 116 ∷ 0 ∷ []) bytes
    then octet
    else if starts_with (109 ∷ 97 ∷ 105 ∷ 108 ∷ 0 ∷ []) bytes
    then mail
    else undefined_tftp_mode

abbrev pub is_octet : TftpMode → Bool
is_octet octet = true
is_octet mode = false

abbrev pub header : ℕ → List ℕ
header block_number =
    (data_opcode / 2 ^ 8)
    ∷ (data_opcode % 2 ^ 8)
    ∷ (block_number / 2 ^ 8)
    ∷ (block_number % 2 ^ 8)
    ∷ []

-- `response`: the header, the data and zeros
unfoldable pub response : ℕ → List ℕ → List ℕ
response block_number bytes =
    header block_number ++ (bytes ++ replicate (max_data_size - length bytes) 0)

-- The first `n` bytes of an array, if they lie inside it
abbrev pub portion : List ℕ → ℕ → Option (List ℕ)
portion bytes n = if leb n (length bytes) then some (take n bytes) else none

-- `offset < fileSize`, of `off_t`
unfoldable pub is_before : ℕ → ℕ → Bool
is_before offset size = ltb ((offset + 2 ^ 31) % 2 ^ 32) ((size + 2 ^ 31) % 2 ^ 32)

-- What a block of the loop sent, how long the block was if the loop goes on, and the world after it
pub record Round (F N : Type 0) : Type 0 where
  pub sent : List (Option (List ℕ))
  pub read_len : Option ℕ
  pub world : World F N

module _ {F : Type 0} (fs : Files F) where
  -- `size_t readLen = file.Read(...)`
  unfoldable pub read_size : Code → ℕ
  read_size (value n) = n
  read_size (error e) = 2 ^ 32 - fs.number e

module _ {N : Type 0} (socket : Socket N) where
  -- A block is transmitted, and its acknowledgement awaited.
  abbrev pub transmit_and_wait : ℕ → ℕ → Option (List ℕ) → N → Option (Code × N)
  transmit_and_wait waits block_number sent n =
      wait_for_ack socket waits 0 block_number (socket.transmit sent n)

module _ {F N : Type 0} (fs : Files F) (socket : Socket N) where
  -- What the loop does with what it read
  unfoldable pub after_read : ℕ → ℕ → N → Code × List ℕ × F → Option (Round F N)
  after_read waits block_number net (ret, bytes, f) =
      let block = portion (response block_number bytes) ((read_size fs ret + 4) % 2 ^ 32) in
      if read_size fs ret == 0
      then some (record { sent = []; read_len = none; world = record { files = f; net = net } })
      else elim (transmit_and_wait socket waits block_number block net) [
        | none ↦ none
        | some (ret', net') ↦ some (record {
          sent = block ∷ [];
          read_len = if is_nonzero ret' then none else some (read_size fs ret);
          world = record { files = f; net = net' };
        })
      ]

  unfoldable pub round : ℕ → File → ℕ → ℕ → World F N → Option (Round F N)
  round waits file block_number offset w =
      after_read waits block_number w.net (File.read fs file max_data_size offset w.files)

  -- What follows the loop
  unfoldable pub send_last : ℕ → ℕ → ℕ → World F N → Option (List (Option (List ℕ)) × World F N)
  send_last waits file_size block_number w =
      if file_size % max_data_size == 0
      then elim (transmit_and_wait socket waits block_number (some (header block_number)) w.net) [
        | none ↦ none
        | some (ret, n) ↦ some (some (header block_number) ∷ [], record w { net = n })
      ]
      else some ([], w)

  -- The loop over the file, and what follows it
  unfoldable pub send_blocks :
      ℕ → ℕ → File → ℕ → ℕ → ℕ → World F N → Option (List (Option (List ℕ)) × World F N)
  send_blocks zero waits file file_size block_number offset w = none
  send_blocks (suc fuel) waits file file_size block_number offset w =
      if not (is_before offset file_size)
      then send_last waits file_size block_number w
      else elim (round waits file block_number offset w) [
        | none ↦ none
        | some r ↦ elim r.read_len [
          | none ↦ some (r.sent, r.world)
          | some n ↦
              elim (send_blocks fuel waits file file_size ((block_number + 1) % 2 ^ 16)
                ((offset + n) % 2 ^ 32) r.world) [
                  | none ↦ none
                  | some (sent, w') ↦ some (r.sent ++ sent, w')
                ]
        ]
      ]

  -- "/lfs/tree" and "reee"
  unfoldable pub generate_tree : F → Code × F
  generate_tree f =
      let (file, f₁) =
        open_file fs (47 ∷ 108 ∷ 102 ∷ 115 ∷ 47 ∷ 116 ∷ 114 ∷ 101 ∷ 101 ∷ [])
          (fs_o_write + fs_o_create) f in
      let (ret, f₂) = File.write fs file (114 ∷ 101 ∷ 101 ∷ 101 ∷ []) f₁ in
      (error eperm, close_file fs file f₂)

  -- From the file's constructor to its destructor
  unfoldable pub send_file :
      ℕ → ℕ → List ℕ → World F N → Option (List (Option (List ℕ)) × World F N)
  send_file fuel waits filename w =
      let (file, f) = open_file fs filename fs_o_read w.files in
      let file_size = get_file_size fs file f in
      if is_negative file.init_status
      then some ([], record w { files = close_file fs file f })
      else if is_below_zero file_size
      then some ([], record w { files = close_file fs file f })
      else elim (send_blocks fuel waits file file_size 1 0 (record w { files = f })) [
        | none ↦ none
        | some (sent, w') ↦ some (sent, record w' { files = close_file fs file w'.files })
      ]

  unfoldable pub handle_read_request :
      ℕ → ℕ → List ℕ → World F N → Option (List (Option (List ℕ)) × World F N)
  handle_read_request fuel waits request w =
      let filename = c_string (drop 2 request) in
      let mode = mode_of (drop (2 + min (length filename) max_filename_len + 1) request) in
      let (ret, f) = generate_tree w.files in
      let is_tree = starts_with (116 ∷ 114 ∷ 101 ∷ 101 ∷ []) filename in
      if is_tree && is_negative ret
      then some ([], record w { files = f })
      else let w' = if is_tree then record w { files = f } else w in
        if not (is_octet mode) then some ([], w') else send_file fuel waits filename w'

  -- `Run`, after its call of the control socket. The packet's array is full of zeros before.
  unfoldable pub run_request :
      ℕ → ℕ → Returned → World F N → Option (List (Option (List ℕ)) × World F N)
  run_request fuel waits (bytes_of bytes) w =
      let request = bytes ++ replicate (rw_request_packet_size - length bytes) 0 in
      if length bytes == 0
      then some ([], w)
      else if word_at request 0 == rrq
      then handle_read_request fuel waits request w
      else some ([], w)
  run_request fuel waits (minus_one errno) w = some ([], w)

  -- `Run`, from what the network gives to the control socket
  unfoldable pub run : ℕ → ℕ → Received → World F N → Option (List (Option (List ℕ)) × World F N)
  run fuel waits received w = run_request fuel waits (receive_asynchronous socket.blocks received) w
