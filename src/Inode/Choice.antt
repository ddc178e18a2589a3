-- ===== src/Inode/Choice.antt =====
-- The entry of the table that `new_inode` takes: the search starts behind the last one taken and
-- goes round the table once.
use eg_gs.Base.{
  ℕ, zero, suc, ◌+◌, ◌-◌, ◌%◌, ◌≤◌, ◌<◌, ◌≡◌, ◌≢◌, refl, inl, inr, Bool-cases, ◌&&◌, ◌||◌, Ram,
  arith, ltb, leb, ◌==◌, if◌then◌else◌, subst, sym,
}
use eg_gs.Kernel.{Ptr, null, Inode}
use eg_gs.Inode.{nr_inode, choose_inode, inode_badness}

-- The entry `j` steps after the one behind `last`.
abbrev pub entry_after : (last j : ℕ) → Ptr
entry_after last j = (last + j) % nr_inode + 1

-- `r` is at least as good as the unused entry `p`.
abbrev pub AsGood : Ram Inode → (r p : Ptr) → Type 0
AsGood table r p = (r ≢ null) × (inode_badness (table r) ≤ inode_badness (table p))

record Best (table : Ram Inode) (n last best r : ℕ) : Type 0 where
  unused : r ≢ null → (table r).i_count ≡ 0
  not_worse : best ≢ null → AsGood table r best
  covers :
      (j : ℕ)
      → j < n
      → (table (entry_after last j)).i_count ≡ 0
      → AsGood table r (entry_after last j)

choose_inode-Best :
    (n : ℕ) (table : Ram Inode) (last best : ℕ)
    → 1 ≤ last
    → last ≤ nr_inode
    → (best ≢ null → (table best).i_count ≡ 0)
    → Best table n last best (choose_inode n table last best).1
unfolding choose_inode
choose_inode-Best zero table last best low high b = record {
  unused = b;
  not_worse = λ h. (h, omega arith);
  covers = λ j h. absurd (omega arith);
}
choose_inode-Best (suc n) table last best low high b =
    let q = last % nr_inode + 1 in
    let at : (if leb nr_inode last then 1 else last + 1) ≡ q = ground arith in
    let better =
      (table q).i_count == 0
      && (best == null || ltb (inode_badness (table q)) (inode_badness (table best))) in
    let here : entry_after last 0 ≡ q = omega arith in
    let q_low : 1 ≤ q = omega arith in
    let q_high : q ≤ nr_inode = omega arith in
    let behind : (j : ℕ) → entry_after last (suc j) ≡ entry_after q j = λ j. omega arith in
    elim (Bool-cases better) [
      | inl e ↦ elim (Bool-cases (inode_badness (table q) == 0)) [
        | inl z ↦
            rw (at, e, z)
              (record {
                unused = λ _. ground arith;
                not_worse = λ _. (omega arith, ground arith);
                covers = λ j _ _. (omega arith, ground arith);
              })
        | inr z ↦
            let rest = choose_inode-Best n table q q q_low q_high (λ _. ground arith) in
            let rest_r = (choose_inode n table q q).1 in
            let (some_r, good) = rest.not_worse (omega arith) in
            rw (at, e, z)
              (record {
                unused = rest.unused;
                not_worse = λ h. (some_r, ground arith);
                covers = elim [
                  | zero ↦ λ _ _. subst (λ x. AsGood table rest_r x) (sym here) (some_r, good)
                  | suc j ↦ λ hj free.
                      subst (λ x. AsGood table rest_r x) (sym (behind j))
                        (rest.covers j (omega arith)
                          (subst (λ x. (table x).i_count ≡ 0) (behind j) free))
                ];
              })
      ]
      | inr e ↦
          let rest_r = (choose_inode n table q best).1 in
          let rest = choose_inode-Best n table q best q_low q_high b in
          rw (at, e)
            (record {
              unused = rest.unused;
              not_worse = rest.not_worse;
              covers = elim [
                | zero ↦ λ _ free.
                    let unused_q : (table q).i_count ≡ 0 =
                      subst (λ x. (table x).i_count ≡ 0) here free in
                    let some_best : best ≢ null = ground arith in
                    let (some_r, good) = rest.not_worse some_best in
                    let worse : inode_badness (table best) ≤ inode_badness (table q) =
                      ground arith in
                    subst (λ x. AsGood table rest_r x) (sym here) (some_r, omega arith)
                | suc j ↦ λ hj free.
                    subst (λ x. AsGood table rest_r x) (sym (behind j))
                      (rest.covers j (omega arith)
                        (subst (λ x. (table x).i_count ≡ 0) (behind j) free))
              ];
            })
    ]

-- If the entry `p` of the inode table is unused, then the search for an entry, started behind any
-- entry of the table, finds one that is unused and no worse than `p`: a dirty one is worse than a
-- locked one, and that is worse than a free one. So it takes the least bad of all unused entries, and
-- `null` only if all are in use.
pub choose_inode-least :
    (table : Ram Inode) (last p : ℕ)
    → 1 ≤ last
    → last ≤ nr_inode
    → 1 ≤ p
    → p ≤ nr_inode
    → (table p).i_count ≡ 0
    → ((table (choose_inode nr_inode table last null).1).i_count ≡ 0)
      × AsGood table (choose_inode nr_inode table last null).1 p
choose_inode-least table last p low high p_low p_high free =
    let best = choose_inode-Best nr_inode table last null low high (λ h. absurd (h refl)) in
    let j = (p + 63 - last) % nr_inode in
    let at : entry_after last j ≡ p = omega arith in
    let good : AsGood table (choose_inode nr_inode table last null).1 p =
      subst (λ x. (table x).i_count ≡ 0 → AsGood table (choose_inode nr_inode table last null).1 x)
        at (best.covers j (omega arith)) free in
    (best.unused good.0, good)
