-- ===== src/Tftp/Rounds.antt =====
-- The rounds of the loop over the file: one that sends a block, and where the loop ends.
use backplane_flight_compute.Base.{
  ℕ, suc, ◌+◌, ◌%◌, ◌^◌, ◌≤◌, ◌<◌, ◌≡◌, refl, subst, ◌∙◌, Option, some, List, [], ◌∷◌, ◌++◌, length,
  take, drop, true, false, arith, length-drop, length-take,
}
use backplane_flight_compute.Tftp.File.{Files}
use backplane_flight_compute.Tftp.Ack.{Socket}
use backplane_flight_compute.Tftp.Server.{World, header, is_before, round, send_last, send_blocks}
use backplane_flight_compute.Tftp.Parts.{
  IsStored, IsAnswering, opened_file, is_before_lem, portion_lem, answered, read_lem, round_of,
}

-- The data of the block at an offset
abbrev pub block_at : List ℕ → ℕ → List ℕ
block_at content offset = take 512 (drop offset content)

module _ {F N : Type 0} (fs : Files F) (socket : Socket N) (IsAt : ℕ → F → Type 0)
    (path content : List ℕ) (stored : IsStored fs IsAt path content)
    (answering : IsAnswering socket) (small : length content < 2 ^ 31) where
  round_at :
      (waits block_number offset : ℕ) (w : World F N)
      → IsAt offset w.files
      → offset < length content
      → block_number < 2 ^ 16
      → (w' : World F N) × IsAt (offset + length (block_at content offset)) w'.files
        × (round fs socket (suc waits) (opened_file path) block_number offset w
            ≡ some (record {
              sent = some (header block_number ++ block_at content offset) ∷ [];
              read_len = some (length (block_at content offset));
              world = w';
            }))
  round_at waits block_number offset w at lt below =
      let (f, at', e) =
        read_lem fs IsAt path content stored offset w.files at (omega arith) small in
      let (n, acked) =
        answered socket answering waits block_number (block_at content offset) w.net below in
      let len = length-take 512 (drop offset content) in
      let rest = length-drop offset content in
      (
        record { files = f; net = n },
        at',
        round_of fs socket (suc waits) (opened_file path) block_number offset w _ _ _ f n e
            (omega (arith, len, rest))
            (portion_lem block_number (block_at content offset) (omega (arith, len))) acked,
      )

  pub round_lem :
      (waits block_number offset len : ℕ) (w : World F N)
      → IsAt offset w.files
      → offset < length content
      → block_number < 2 ^ 16
      → length (block_at content offset) ≡ len
      → (w' : World F N) × IsAt (offset + len) w'.files
        × (round fs socket (suc waits) (opened_file path) block_number offset w
            ≡ some (record {
              sent = some (header block_number ++ block_at content offset) ∷ [];
              read_len = some len;
              world = w';
            }))
  round_lem waits block_number offset len w at lt below e =
      subst
        (λ n.
          (w' : World F N) × IsAt (offset + n) w'.files
          × (round fs socket (suc waits) (opened_file path) block_number offset w
              ≡ some (record {
                sent = some (header block_number ++ block_at content offset) ∷ [];
                read_len = some n;
                world = w';
              })))
        e (round_at waits block_number offset w at lt below)

  pub end_lem :
      (fuel waits block_number offset : ℕ) (w : World F N)
      → offset ≡ length content
      → send_blocks fs socket
          (suc fuel)
          waits
          (opened_file path)
          (length content)
          block_number
          offset
          w
        ≡ send_last fs socket waits (length content) block_number w
  unfolding send_blocks
  end_lem fuel waits block_number offset w e =
      let over : is_before offset (length content) ≡ false =
        is_before_lem offset (length content) (omega (arith, e)) small ∙ ground (arith, e) in
      rw over refl

  pub step_lem :
      (fuel waits block_number offset : ℕ) (w w' w'' : World F N)
      (sent rest : List (Option (List ℕ))) (n : ℕ)
      → offset < length content
      → offset + n ≤ length content
      → round fs socket waits (opened_file path) block_number offset w
        ≡ some (record { sent = sent; read_len = some n; world = w' })
      → send_blocks fs socket fuel waits
          (opened_file path)
          (length content)
          ((block_number + 1) % 2 ^ 16)
          (offset + n)
          w'
        ≡ some (rest, w'')
      → send_blocks fs socket
          (suc fuel)
          waits
          (opened_file path)
          (length content)
          block_number
          offset
          w
        ≡ some (sent ++ rest, w'')
  unfolding send_blocks
  step_lem fuel waits block_number offset w w' w'' sent rest n lt le e e' =
      let before : is_before offset (length content) ≡ true =
        is_before_lem offset (length content) (omega arith) small ∙ ground arith in
      let inside : (offset + n) % 2 ^ 32 ≡ offset + n = omega arith in
      rw (before, e, inside, e') refl
