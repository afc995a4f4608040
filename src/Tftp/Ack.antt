-- ===== src/Tftp/Ack.antt =====
-- waitForAck: the server waits for the acknowledgement of a block. The socket is a parameter.
use backplane_flight_compute.Base.{
  ℕ, zero, suc, ◌+◌, ◌*◌, ◌^◌, ◌&&◌, Bool, Option, none, some, List, [], if◌then◌else◌, leb, ◌==◌,
  get_or, length,
}
use backplane_flight_compute.Zephyr.{Code, value, success, error, eperm}

-- What Zephyr gives to `ReceiveAsynchronous`: a failed zsock_fcntl, with its `errno`; or of zsock_recvfrom the
-- bytes received, at most as many as asked for, or a failure with its `errno`.
pub data Received : Type 0 where
  packet : List ℕ → Received
  unreceived : ℕ → Received
  no_flags : ℕ → Received

-- What `ReceiveAsynchronous` returns: the bytes; or -1, with `errno`
pub data Returned : Type 0 where
  bytes_of : List ℕ → Returned
  minus_one : ℕ → Returned

-- ReceiveAsynchronous (lib/f_core/net/transport/c_udp_socket.cpp), which makes a receive that would block one of no
-- bytes. `blocks` is `errno == EWOULDBLOCK || errno == EAGAIN`.
unfoldable pub receive_asynchronous : (ℕ → Bool) → Received → Returned
receive_asynchronous blocks (packet bytes) = bytes_of bytes
receive_asynchronous blocks (unreceived errno) =
    if blocks errno then bytes_of [] else minus_one errno
receive_asynchronous blocks (no_flags errno) = minus_one errno

-- The two numbers in `blocks` are the kernel's. `TransmitAsynchronous` is given the bytes, or `none` where some
-- of them lie outside the array.
pub record Socket (N : Type 0) : Type 0 where
  pub blocks : ℕ → Bool
  pub receive : ℕ → N → Received × N
  pub transmit : Option (List ℕ) → N → N
  pub sleep_ms : ℕ → N → N

-- A round of the loop ends it with a code, or goes on with a number of retries.
pub data Wait (N : Type 0) : Type 0 where
  done : Code → N → Wait N
  again : ℕ → N → Wait N

abbrev pub max_retries : ℕ
max_retries = 5

-- `RRQ`, `DATA` and `ACK`
abbrev pub rrq : ℕ
rrq = 1

abbrev pub data_opcode : ℕ
data_opcode = 3

abbrev pub ack_opcode : ℕ
ack_opcode = 4

-- Two bytes in network order
abbrev pub word_at : List ℕ → ℕ → ℕ
word_at bytes i = get_or bytes i 0 * 2 ^ 8 + get_or bytes (i + 1) 0

-- The two tests of a whole packet. The -1 of a failure is that of EPERM.
unfoldable pub check_ack : List ℕ → ℕ → Code
check_ack ack block_num =
    if (word_at ack 0 == ack_opcode) && (word_at ack 2 == block_num) then success else error eperm

module _ {N : Type 0} (socket : Socket N) where
  unfoldable pub after_receive : Returned → ℕ → ℕ → N → Wait N
  after_receive (bytes_of ack) retries block_num n =
      if length ack == 4 then done (check_ack ack block_num) n else again retries n
  after_receive (minus_one errno) retries block_num n =
      if socket.blocks errno
      then again (suc retries) (socket.sleep_ms 100 n)
      else done (value errno) n

  -- The loop, with its number of retries; `none` when the fuel is used up.
  unfoldable pub wait_for_ack : ℕ → ℕ → ℕ → N → Option (Code × N)
  wait_for_ack zero retries block_num n = none
  wait_for_ack (suc fuel) retries block_num n =
      if leb max_retries retries
      then some (error eperm, n)
      else elim (after_receive (receive_asynchronous socket.blocks (socket.receive 4 n).0) retries
          block_num (socket.receive 4 n).1) [
            | done c n' ↦ some (c, n')
            | again retries' n' ↦ wait_for_ack fuel retries' block_num n'
          ]
