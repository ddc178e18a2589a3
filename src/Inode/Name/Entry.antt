-- ===== src/Inode/Name/Entry.antt =====
-- The names that `create_inode_by_name` writes are found by `match`.
use eg_gs.Base.{ℕ, ◌+◌, ◌-◌, ◌<◌, ◌≤◌, ◌≡◌, ap, Bool, true, Ram, arith}
use eg_gs.Format.Match.{name_len, match}
use eg_gs.Format.Match.Same.{match-names}
use eg_gs.Inode.Name.{put_name}

same_place : (name de j : ℕ) → name + j ≡ name + (de + j) - de
same_place name de j = omega arith

-- For a name of 1 to 30 bytes that is put into an entry whose name stands at `de`: `match` finds it
-- there, every byte of the entry's name behind it is 0, and no byte outside the entry's name has changed.
pub match-put_name :
    (zero_flag : Bool) (user : Ram ℕ) (name len : ℕ) (block : Ram ℕ) (de : ℕ)
    → 0 < len
    → len ≤ name_len
    → (match zero_flag len
          (λ j. user (name + j))
          (λ j. put_name name_len user name len block de (de + j))
        ≡ true)
      × ((j : ℕ) → len ≤ j → j < name_len → put_name name_len user name len block de (de + j) ≡ 0)
      × ((p : ℕ) → p < de → put_name name_len user name len block de p ≡ block p)
      × ((p : ℕ) → de + name_len ≤ p → put_name name_len user name len block de p ≡ block p)
unfolding put_name
match-put_name flag user name len block de some fits = (
  (match-names flag len _ _ some).1 (fits, λ j l. ground (arith, ap user (same_place name de j))),
  λ j l m. ground arith,
  λ p l. ground arith,
  λ p l. ground arith,
)
