-- ===== src/Tests/Recv.antt =====
-- Receiving: a message of five bytes in fragments of two and three.
use ubuntu_elkhart_lake_pse.Prelude.{ℕ, ◌+◌, ◌≤◌, refl, List, [], ◌∷◌, arith, length}
use ubuntu_elkhart_lake_pse.Ishtp.Recv.{ishtp_read, overwrite, takes}
use ubuntu_elkhart_lake_pse.Ishtp.Recv.Buffer.{length-overwrite}
use ubuntu_elkhart_lake_pse.Ishtp.Recv.Message.{
  Arrival, Receiving, Received, recv_all, recv_all_lem,
}
use ubuntu_elkhart_lake_pse.Tests.Data.{test_rb, test_client, test_world}

abbrev block : List ℕ
block = 0 ∷ 0 ∷ 0 ∷ 0 ∷ 0 ∷ 0 ∷ []

abbrev first : Arrival
first = (2, 11 ∷ 12 ∷ 99 ∷ 99 ∷ [])

abbrev second : Arrival
second = (3, 13 ∷ 14 ∷ 15 ∷ 99 ∷ [])

receiving : Receiving 3 7 1 [] [] test_world (test_rb 20) test_client block []
unfolding takes
receiving = record {
  posted = refl;
  skipped = tt;
  owner = refl;
  present = refl;
  at_home = refl;
  taken = refl;
  content = refl;
  sized = omega arith;
  bounded = omega arith;
  some_size = omega arith;
  held = refl;
}

recv_all_lem_example :
    Received 3 7 1 [] [] test_client
      (11 ∷ 12 ∷ 13 ∷ 14 ∷ 15 ∷ [])
      (recv_all 3 7 test_world (first ∷ second ∷ []))
recv_all_lem_example =
    recv_all_lem 3 7 1 [] [] (second ∷ []) first test_world (test_rb 20) test_client block []
      (
        omega arith,
        omega arith,
        refl,
        omega arith,
        (omega arith, omega arith, refl, omega arith, tt),
      )
      receiving

length-overwrite_example :
    (6 ≤ length (overwrite block 4 (ishtp_read (11 ∷ 12 ∷ 99 ∷ 99 ∷ []) 2)))
    × (length (overwrite block 4 (ishtp_read (11 ∷ 12 ∷ 99 ∷ 99 ∷ []) 2)) ≤ 6 + 3)
length-overwrite_example =
    length-overwrite block (11 ∷ 12 ∷ 99 ∷ 99 ∷ []) 4 2 (omega arith) (omega arith) refl
