-- ===== src/Drivers/Tty/Buffer/Tests.antt =====
-- A tail chunk with room for two bytes receives five.
use wey_os.Base.{ℕ, ◌≡◌, refl, true, false, some, List, [], ◌∷◌, ◌++◌, arith, replicate, Result, ok}
use wey_os.Drivers.Tty.Buffer.{
  TtyBuffer, fresh, fill, is_full, available, write, drain, flush_to_ldisc, finish, tty_receive_buf,
}
use wey_os.Drivers.Tty.Buffer.Receive.{Received, tty_receive_buf_lem}

abbrev nearly_full : TtyBuffer
nearly_full = record { read_pos = 0; bytes = replicate 1022 7 }

delivered :
    tty_receive_buf true (λ k. true) (nearly_full ∷ []) (1 ∷ 2 ∷ 3 ∷ [])
    ≡ some (ok 3, (replicate 1022 7 ++ (1 ∷ 2 ∷ [])) ∷ (3 ∷ []) ∷ [], fresh ∷ [])
unfolding tty_receive_buf fill is_full available write finish flush_to_ldisc drain
delivered = refl

out_of_memory :
    tty_receive_buf true (λ k. false) (nearly_full ∷ []) (1 ∷ 2 ∷ 3 ∷ [])
    ≡ some (ok 2, [], record { read_pos = 0; bytes = replicate 1022 7 ++ (1 ∷ 2 ∷ []) } ∷ [])
unfolding tty_receive_buf fill is_full available write finish
out_of_memory = refl

tty_receive_buf_lem_example :
    (rest : List ℕ) × (r : Result ℕ × List (List ℕ) × List TtyBuffer) × (tty_receive_buf true
        (λ k. true)
        (nearly_full ∷ [])
        (1 ∷ 2 ∷ 3 ∷ [])
      ≡ some r)
    × Received true (λ k. true) (nearly_full ∷ []) (1 ∷ 2 ∷ 3 ∷ []) rest r
tty_receive_buf_lem_example =
    tty_receive_buf_lem true (λ k. true) (nearly_full ∷ []) 1 (2 ∷ 3 ∷ []) (refl, omega arith)
