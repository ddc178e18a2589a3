-- ===== src/Tests/Names.antt =====
-- Names of directory entries.
use eg_gs.Base.{ℕ, ◌+◌, ◌<◌, ◌≤◌, ◌≡◌, ◌↔◌, false, true, Ram, arith}
use eg_gs.Format.Match.{name_len, match}
use eg_gs.Format.Match.Same.{match-names}
use eg_gs.Inode.Name.{put_name}
use eg_gs.Inode.Name.Entry.{match-put_name}

abbrev letters : Ram ℕ
letters p = b'a' + p

match-names_example :
    (match false 3 letters letters ≡ true)
    ↔ ((3 ≤ name_len) × ((j : ℕ) → j < 3 → letters j ≡ letters j))
match-names_example = match-names false 3 letters letters (omega arith)

match-put_name_example :
    (match false 5 (λ j. letters (2 + j)) (λ j. put_name name_len letters 2 5 (λ _. 7) 66 (66 + j))
      ≡ true)
    × ((j : ℕ) → 5 ≤ j → j < name_len → put_name name_len letters 2 5 (λ _. 7) 66 (66 + j) ≡ 0)
    × ((p : ℕ) → p < 66 → put_name name_len letters 2 5 (λ _. 7) 66 p ≡ 7)
    × ((p : ℕ) → 66 + name_len ≤ p → put_name name_len letters 2 5 (λ _. 7) 66 p ≡ 7)
match-put_name_example = match-put_name false letters 2 5 (λ _. 7) 66 (omega arith) (omega arith)
