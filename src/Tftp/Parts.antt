-- ===== src/Tftp/Parts.antt =====
-- The steps of a transfer, on a file system that stores a file and a network that answers.
use backplane_flight_compute.Base.{
  ℕ, suc, ◌+◌, ◌-◌, ◌*◌, ◌/◌, ◌%◌, ◌^◌, ◌≤◌, ◌<◌, ◌≡◌, refl, ap, subst, ◌∙◌, not, ◌&&◌, some, List,
  [], ◌∷◌, ◌++◌, length, take, drop, replicate, ltb, leb, ◌==◌, Bool-cases, true, false, inl, inr,
  arith, length-append,
}
use backplane_flight_compute.Zephyr.{value, success}
use backplane_flight_compute.Tftp.File.{Files, File, fs_o_read, is_below_zero}
use backplane_flight_compute.Tftp.File as File
use backplane_flight_compute.Tftp.Ack.{
  packet, Socket, check_ack, after_receive, wait_for_ack, receive_asynchronous,
}
use backplane_flight_compute.Tftp.Server.{
  World, header, response, portion, is_before, read_size, transmit_and_wait, after_read, round,
  max_data_size,
}

-- A file system that stores a file: `IsAt pos f` says that it is open at a position. It opens at its start,
-- a seek inside it succeeds, and a read gives the bytes that follow, as many as asked for or as are left.
pub record IsStored {F : Type 0} (fs : Files F) (IsAt : ℕ → F → Type 0) (path content : List ℕ)
    : Type 0 where
  pub opened :
      (f : F) → ((fs.fs_open path fs_o_read f).0 ≡ success) × IsAt 0 (fs.fs_open path fs_o_read f).1
  pub measured : (f : F) → fs.fs_stat path f ≡ (success, length content)
  pub sought :
      (p pos : ℕ) (f : F)
      → IsAt p f
      → pos ≤ length content
      → ((fs.fs_seek pos f).0 ≡ success) × IsAt pos (fs.fs_seek pos f).1
  pub reads :
      (p len : ℕ) (f : F)
      → IsAt p f
      → let bytes = take len (drop p content) in
        ((fs.fs_read len f).0 ≡ value (length bytes))
        × ((fs.fs_read len f).1 ≡ bytes)
        × IsAt (p + length bytes) (fs.fs_read len f).2

-- A socket that gives the acknowledgement of each block after the block's transmission.
pub record IsAnswering {N : Type 0} (socket : Socket N) : Type 0 where
  pub answers :
      (block_number : ℕ) (bytes : List ℕ) (n : N)
      → block_number < 2 ^ 16
      → (socket.receive 4 (socket.transmit (some (header block_number ++ bytes)) n)).0
        ≡ packet (0 ∷ 4 ∷ (block_number / 2 ^ 8) ∷ (block_number % 2 ^ 8) ∷ [])

-- The file as `open_file` makes it
abbrev pub opened_file : List ℕ → File
opened_file path = record { path = path; flags = fs_o_read; init_status = success }

pub is_before_lem :
    (offset size : ℕ) → offset < 2 ^ 31 → size < 2 ^ 31 → is_before offset size ≡ ltb offset size
unfolding is_before
is_before_lem offset size h k = ground arith

take_all : (xs ys : List ℕ) → take (length xs) (xs ++ ys) ≡ xs
take_all [] ys = refl
take_all (x ∷ xs) ys = ap (λ zs. x ∷ zs) (take_all xs ys)

triple_eq : {A B C : Type 0} (x : A × B × C) {a : A} {b : B} → x.0 ≡ a → x.1 ≡ b → x ≡ (a, b, x.2)
triple_eq x {a} {b} p q = subst (λ b'. x ≡ (a, b', x.2)) q (subst (λ a'. x ≡ (a', x.1, x.2)) p refl)

-- What is sent of the response: the header and the data.
pub portion_lem :
    (block_number : ℕ) (bytes : List ℕ)
    → length bytes ≤ 512
    → portion (response block_number bytes) ((length bytes + 4) % 2 ^ 32)
      ≡ some (header block_number ++ bytes)
unfolding response
portion_lem block_number bytes fits =
    let zeros : List ℕ = replicate (max_data_size - length bytes) 0 in
    let small : (length bytes + 4) % 2 ^ 32 ≡ suc (suc (suc (suc (length bytes)))) = omega arith in
    let inside : leb (suc (suc (suc (suc (length bytes)))))
          (suc (suc (suc (suc (length (bytes ++ zeros))))))
        ≡ true =
      ground (arith, length-append bytes zeros) in
    rw (small, inside, take_all bytes zeros) refl

module _ {N : Type 0} (socket : Socket N) (answering : IsAnswering socket) where
  pub answered :
      (waits block_number : ℕ) (bytes : List ℕ) (n : N)
      → block_number < 2 ^ 16
      → (n' : N) × (transmit_and_wait socket
            (suc waits)
            block_number
            (some (header block_number ++ bytes))
            n
          ≡ some (success, n'))
  unfolding wait_for_ack after_receive check_ack receive_asynchronous
  answered waits block_number bytes n small =
      let n' = (socket.receive 4 (socket.transmit (some (header block_number ++ bytes)) n)).1 in
      let same : (block_number / 2 ^ 8 * 2 ^ 8 + block_number % 2 ^ 8 == block_number) ≡ true =
        ground arith in
      (n', rw (answering.answers block_number bytes n small, same) refl)

module _ {F : Type 0} (fs : Files F) (IsAt : ℕ → F → Type 0) (path content : List ℕ)
    (stored : IsStored fs IsAt path content) where
  pub read_lem :
      (offset : ℕ) (f : F)
      → IsAt offset f
      → offset ≤ length content
      → length content < 2 ^ 31
      → let block = take 512 (drop offset content) in
        (f' : F) × IsAt (offset + length block) f'
        × (File.read fs (opened_file path) 512 offset f ≡ (value (length block), block, f'))
  unfolding File.read
  read_lem offset f at le small = elim (Bool-cases (ltb 0 offset && not (is_below_zero offset))) [
    | inl later ↦
        let (ok, at') = stored.sought offset offset f at le in
        let (ret, bytes, at'') = stored.reads offset 512 (fs.fs_seek offset f).1 at' in
        (_, at'', rw (later, ok) (triple_eq (fs.fs_read 512 (fs.fs_seek offset f).1) ret bytes))
    | inr first ↦
        let (ret, bytes, at') = stored.reads offset 512 f at in
        (_, at', rw first (triple_eq (fs.fs_read 512 f) ret bytes))
  ]

-- A round whose read gives data, and whose block is acknowledged
pub round_of :
    {F N : Type 0} (fs : Files F) (socket : Socket N) (waits : ℕ) (file : File)
    (block_number offset : ℕ) (w : World F N) (len : ℕ) (bytes sent : List ℕ) (f : F) (n : N)
    → File.read fs file 512 offset w.files ≡ (value len, bytes, f)
    → 0 < len
    → portion (response block_number bytes) ((len + 4) % 2 ^ 32) ≡ some sent
    → transmit_and_wait socket waits block_number (some sent) w.net ≡ some (success, n)
    → round fs socket waits file block_number offset w
      ≡ some (record {
        sent = some sent ∷ [];
        read_len = some len;
        world = record { files = f; net = n };
      })
unfolding round after_read read_size
round_of fs socket waits file block_number offset w len bytes sent f n e positive whole acked =
    let some_read : (len == 0) ≡ false = ground arith in
    ap (after_read fs socket waits block_number w.net) e ∙ rw (some_read, whole, acked, whole) refl
