-- ===== src/Examples/Writers.antt =====
-- A writer that takes two bytes at a time.
use bittorrent_client.Base.{List, [], arith, length, min, none, refl, take, ℕ, ◌++◌, ◌∷◌, ◌≡◌}
use bittorrent_client.Wire.Writer.{Writer, written, write_full}
use bittorrent_client.Wire.Writer.Complete.{Progress, write_full-Progress}

abbrev pub slow : Writer
slow = record {
  State = List ℕ;
  write = λ s p. record {
    count = min 2 (length p);
    error = none;
    next = s ++ take (min 2 (length p)) p;
  };
  sent = λ s. s;
  count_le = λ s p. omega arith;
  sent-write = λ s p. refl;
}

write_full-Progress_example :
    Progress slow (5 ∷ 6 ∷ 7 ∷ []) 0 (1 ∷ []) (write_full slow (5 ∷ 6 ∷ 7 ∷ []) (1 ∷ []))
write_full-Progress_example = write_full-Progress slow (5 ∷ 6 ∷ 7 ∷ []) (1 ∷ [])

write_three : write_full slow (5 ∷ 6 ∷ 7 ∷ []) (1 ∷ []) ≡ written 3 none (1 ∷ 5 ∷ 6 ∷ 7 ∷ [])
unfolding write_full
write_three = refl
