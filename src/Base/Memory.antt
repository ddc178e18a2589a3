-- ===== src/Base/Memory.antt =====
-- Memory as a function from addresses, and the copying loops of util.c over it.
use Prim.Native.Nat.{ℕ, zero, suc, ◌+◌, ◌-◌, ◌≤◌}
use mathlib.Core.Path.{◌≡◌}
use mathlib.Core.Bool.{◌&&◌}
use native.Mathlib.Omega.{arith}
use eg_gs.Base.Tests.{leb, ltb, ◌==◌, if◌then◌else◌}

abbrev pub Ram : Type 0 → Type 0
Ram A = ℕ → A

module _ {A : Type 0} where
  -- `m` with the value `v` at the address `p`.
  abbrev pub update : Ram A → ℕ → A → Ram A
  update m p v q = if p == q then v else m q

  -- `memcpy`: one element at a time, upwards. `count` elements of the memory's type are moved.
  pub memcpy : Ram A → (dest src count : ℕ) → Ram A
  memcpy m dest src zero = m
  memcpy m dest src (suc count) = memcpy (update m dest (m src)) (dest + 1) (src + 1) count

  -- `memset` and `memsetw`.
  pub memset : Ram A → (dest : ℕ) → A → (count : ℕ) → Ram A
  memset m dest val zero = m
  memset m dest val (suc count) = memset (update m dest val) (dest + 1) val count

  pub memset_lem :
      (m : Ram A) (dest : ℕ) (val : A) (count i : ℕ)
      → memset m dest val count i ≡ (if leb dest i && ltb i (dest + count) then val else m i)
  unfolding memset
  memset_lem m dest val zero i = ground arith
  memset_lem m dest val (suc count) i =
      ground (arith, memset_lem (update m dest val) (dest + 1) val count i)

  pub memcpy_lem :
      (m : Ram A) (dest src count i : ℕ)
      → dest ≤ src
      → memcpy m dest src count i
        ≡ (if leb dest i && ltb i (dest + count) then m (i - dest + src) else m i)
  unfolding memcpy
  memcpy_lem m dest src zero i h = ground arith
  memcpy_lem m dest src (suc count) i h =
      ground (arith, memcpy_lem (update m dest (m src)) (dest + 1) (src + 1) count i (omega arith))
