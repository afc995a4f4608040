-- ===== src/Radio/UdpSocket.antt =====
-- CUdpSocket's sending to a port (lib/f_core/net/transport/c_udp_socket.cpp). The address of a sending
-- function is a static variable of it, which all sockets share and which is set in the first call.
-- The results of zsock_fcntl and zsock_sendto are arguments; -1 is what a failed zsock call returns.
use backplane_flight_compute.Base.{ℕ, ◌%◌, ◌^◌, Bool, Option, none, some, List}
use backplane_flight_compute.Base.{if◌then◌else◌, ◌&&◌}
use backplane_flight_compute.Zephyr.{Code, Errno, error, is_negative}

-- The `sin_port` of `addr`, in host order, once the function has been called
pub record Statics : Type 0 where
  pub synchronous_port : Option ℕ
  pub asynchronous_port : Option ℕ

abbrev pub no_statics : Statics
no_statics = record { synchronous_port = none; asynchronous_port = none }

-- `dstPort`
pub record Socket : Type 0 where
  pub dst_port : ℕ

unfoldable pub set_dst_port : ℕ → Socket → Socket
set_dst_port port s = record s { dst_port = port }

-- A datagram that is handed to zsock_sendto, with its port
abbrev pub Datagram : Type 0
Datagram = ℕ × List ℕ

-- A static variable's initialization
abbrev pub initialized : Option ℕ → ℕ → ℕ
initialized none port = port % 2 ^ 16
initialized (some port') port = port'

-- What zsock_fcntl and zsock_sendto return; `blocking` is `!(flags & O_NONBLOCK)`.
pub record Answers : Type 0 where
  pub get_flags : Code
  pub blocking : Bool
  pub set_flags : Code
  pub sent : Code

abbrev pub failed : Code
failed = error Errno.eperm

unfoldable pub transmit_synchronous :
    List ℕ → Code → Socket → Statics → Code × Option Datagram × Statics
transmit_synchronous bytes sent s statics =
    let port = initialized statics.synchronous_port s.dst_port in
    (sent, some (port, bytes), record statics { synchronous_port = some port })

unfoldable pub transmit_asynchronous :
    List ℕ → Answers → Socket → Statics → Code × Option Datagram × Statics
transmit_asynchronous bytes answers s statics =
    let port = initialized statics.asynchronous_port s.dst_port in
    let statics' = record statics { asynchronous_port = some port } in
    if is_negative answers.get_flags
    then (failed, none, statics')
    else if answers.blocking && is_negative answers.set_flags
    then (failed, none, statics')
    else (answers.sent, some (port, bytes), statics')
