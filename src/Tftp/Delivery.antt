-- ===== src/Tftp/Delivery.antt =====
-- What a client of the server receives: the file that it asked for.
use backplane_flight_compute.Base.{
  ℕ, zero, suc, ◌+◌, ◌-◌, ◌%◌, ◌^◌, ◌≤◌, ◌<◌, ◌≡◌, refl, sym, ap, ◌∙◌, Option, some, List, [], ◌∷◌,
  ◌++◌, length, drop, ltb, leb, ◌==◌, Bool-cases, true, false, inl, inr, arith, length-drop,
  length-take, take-append-drop,
}
use backplane_flight_compute.Tftp.File.{Files, File, fs_o_read, open_file, get_file_size}
use backplane_flight_compute.Tftp.File as File
use backplane_flight_compute.Tftp.Ack.{Socket}
use backplane_flight_compute.Tftp.Server.{World, header, send_last, send_blocks, send_file}
use backplane_flight_compute.Tftp.Parts.{IsStored, IsAnswering, opened_file, answered}
use backplane_flight_compute.Tftp.Client.{
  client, data_of-header, client-last, client-more, drop-drop, drop_end, take_end, ragged,
}
use backplane_flight_compute.Tftp.Rounds.{block_at, round_lem, end_lem, step_lem}

module _ {F N : Type 0} (fs : Files F) (socket : Socket N) (IsAt : ℕ → F → Type 0)
    (path content : List ℕ) (stored : IsStored fs IsAt path content)
    (answering : IsAnswering socket) (small : length content < 2 ^ 31) where
  -- What the loop sends from an offset, and that a client makes the rest of the file of it.
  abbrev Delivers : ℕ → ℕ → ℕ → ℕ → World F N → Type 0
  Delivers fuel waits block_number offset w =
      (sent : List (Option (List ℕ))) × (w' : World F N) × (send_blocks fs socket fuel (suc waits)
          (opened_file path) (length content) block_number offset w
        ≡ some (sent, w'))
      × (client block_number sent ≡ some (drop offset content))

  -- Behind the last whole block: an empty one if the file ends there.
  empty_lem :
      (fuel waits block_number offset : ℕ) (w : World F N)
      → offset ≡ length content
      → offset % 512 ≡ 0
      → block_number < 2 ^ 16
      → Delivers (suc fuel) waits block_number offset w
  unfolding send_last
  empty_lem fuel waits block_number offset w e whole below =
      let (n, acked) = answered socket answering waits block_number [] w.net below in
      let multiple : (length content % 512 == 0) ≡ true = ground (arith, e, whole) in
      (
        some (header block_number) ∷ [],
        record w { net = n },
        end_lem fs socket IsAt path content stored answering small fuel (suc waits) block_number
              offset w e
            ∙ rw (multiple, acked) refl,
        client-last block_number (some (header block_number)) [] (data_of-header block_number [])
              (omega arith)
            ∙ ap some (sym (drop_end offset content (omega (arith, e)))),
      )

  -- From a short block on
  short_lem :
      (fuel waits block_number offset : ℕ) (w : World F N)
      → IsAt offset w.files
      → offset < length content
      → length content < offset + 512
      → offset % 512 ≡ 0
      → block_number < 2 ^ 16
      → Delivers (suc (suc fuel)) waits block_number offset w
  unfolding send_last
  short_lem fuel waits block_number offset w at lt short whole below =
      let len : length (block_at content offset) ≡ length content - offset =
        omega (arith, length-take 512 (drop offset content), length-drop offset content) in
      let (w', at', r) =
        round_lem fs socket IsAt path content stored answering small waits block_number offset
          (length content - offset) w at lt below len in
      (
        _,
        w',
        step_lem fs socket IsAt path content stored answering small (suc fuel) (suc waits)
            block_number offset w w' w' _ [] (length content - offset) lt (omega arith) r
            (end_lem fs socket IsAt path content stored answering small fuel (suc waits) _ _ w'
                (omega arith)
              ∙ rw (ragged offset (length content) whole lt short) refl),
        client-last block_number _ (block_at content offset)
              (data_of-header block_number (block_at content offset)) (omega (arith, len))
            ∙ ap some
                (take_end 512 (drop offset content) (omega (arith, length-drop offset content))),
      )

  -- A whole block, and what follows it
  full_lem :
      (fuel waits block_number offset : ℕ) (w : World F N)
      → IsAt offset w.files
      → offset + 512 ≤ length content
      → block_number < 2 ^ 16
      → ((w' : World F N)
          → IsAt (offset + 512) w'.files
          → Delivers fuel waits ((block_number + 1) % 2 ^ 16) (offset + 512) w')
      → Delivers (suc fuel) waits block_number offset w
  full_lem fuel waits block_number offset w at le below next =
      let len : length (block_at content offset) ≡ 512 =
        omega (arith, length-take 512 (drop offset content), length-drop offset content) in
      let (w', at', r) =
        round_lem fs socket IsAt path content stored answering small waits block_number offset 512 w
          at (omega arith) below len in
      let (sent, w'', e, received) = next w' at' in
      (
        _,
        w'',
        step_lem fs socket IsAt path content stored answering small fuel (suc waits) block_number
            offset w w' w'' _ sent 512 (omega arith) le r e,
        client-more block_number _ (block_at content offset) _ sent
              (data_of-header block_number (block_at content offset)) len received
            ∙ ap some (
                ap (λ more. block_at content offset ++ more)
                  (sym (drop-drop 512 offset (offset + 512) content refl))
                ∙ take-append-drop 512 (drop offset content)),
      )

  -- With fuel for a round for each byte that is left, and one more
  delivers :
      (fuel waits block_number offset : ℕ) (w : World F N)
      → IsAt offset w.files
      → offset ≤ length content
      → offset % 512 ≡ 0
      → block_number < 2 ^ 16
      → length content < fuel + offset
      → Delivers fuel waits block_number offset w
  delivers zero waits block_number offset w at le whole below enough = absurd (omega arith)
  delivers (suc zero) waits block_number offset w at le whole below enough =
      empty_lem zero waits block_number offset w (omega arith) whole below
  delivers (suc (suc fuel)) waits block_number offset w at le whole below enough =
      elim (Bool-cases (ltb offset (length content))) [
        | inr end ↦ empty_lem (suc fuel) waits block_number offset w (ground arith) whole below
        | inl more ↦
            let lt : offset < length content = ground arith in
            elim (Bool-cases (leb (offset + 512) (length content))) [
              | inr short ↦
                  short_lem fuel waits block_number offset w at lt (ground arith) whole below
              | inl long ↦
                  full_lem (suc fuel) waits block_number offset w at (ground arith) below (λ w' at'.
                    delivers (suc fuel) waits ((block_number + 1) % 2 ^ 16) (offset + 512) w' at'
                      (ground arith) (omega arith) (omega arith) (omega arith))
            ]
      ]

  pub file_lem :
      (fuel waits : ℕ) (w : World F N)
      → length content < fuel
      → (sent : List (Option (List ℕ))) × (w' : World F N) × (send_file fs socket fuel
            (suc waits)
            path
            w
          ≡ some (sent, w'))
        × (client 1 sent ≡ some content)
  unfolding send_file open_file get_file_size
  file_lem fuel waits w enough =
      let (ok, at) = stored.opened w.files in
      let f = (fs.fs_open path fs_o_read w.files).1 in
      let (sent, w', e, received) =
        delivers fuel waits 1 0 (record w { files = f }) at (omega arith) refl (omega arith)
          (omega arith) in
      let positive : leb (2 ^ 31) (length content) ≡ false = ground (arith, small) in
      (
        sent,
        record w' { files = File.close_file fs (opened_file path) w'.files },
        rw (ok, stored.measured f, positive, e, ok) refl,
        received,
      )
