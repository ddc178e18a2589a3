-- ===== src/Inode/Lookup.antt =====
-- `find_inode` on a table in which nothing is mounted.
use eg_gs.Base.{
  ℕ, zero, suc, ◌+◌, ◌≤◌, ◌<◌, ◌≡◌, ◌≢◌, ◌⊎◌, refl, subst, true, false, inl, inr, Bool-cases, ◌&&◌,
  Ram, arith, ltb, ◌==◌, not,
}
use eg_gs.Kernel.{Kernel, null, Inode}
use eg_gs.Kernel.Result.{Returns, returns, weaken}
use eg_gs.Inode.{nr_inode, find_inode, find_inode_from, Place}

-- The entry is for the inode `nr` of the device `dev`.
abbrev pub IsFor : Inode → (dev nr : ℕ) → Type 0
IsFor i dev nr = (i.i_dev ≡ dev) × (i.i_num ≡ nr)

-- No entry from `p` to `q` is for that inode.
abbrev pub NoneFor : Ram Inode → (dev nr p q : ℕ) → Type 0
NoneFor table dev nr p q =
    (i : ℕ) → p ≤ i → i < q → (not ((table i).i_dev == dev && (table i).i_num == nr)) ≡ true

-- The first entry for the inode, from `p` on, or `null` if there is none.
pub record FirstFor (table : Ram Inode) (dev nr p : ℕ) (f : Place) : Type 0 where
  pub same_dev : f.dev ≡ dev
  pub same_nr : f.nr ≡ nr
  pub found :
      ((f.inode ≡ null) × NoneFor table dev nr p (nr_inode + 1))
      ⊎ ((p ≤ f.inode)
          × (f.inode ≤ nr_inode)
          × IsFor (table f.inode) dev nr
          × NoneFor table dev nr p f.inode)

FirstFor-behind :
    (table : Ram Inode) (dev nr p : ℕ) (f : Place)
    → (not ((table p).i_dev == dev && (table p).i_num == nr)) ≡ true
    → FirstFor table dev nr (p + 1) f
    → FirstFor table dev nr p f
FirstFor-behind table dev nr p f other first = record {
  same_dev = first.same_dev;
  same_nr = first.same_nr;
  found = elim first.found [
    | inl (none_found, before) ↦ inl (none_found, more (nr_inode + 1) before)
    | inr (low, high, is, before) ↦ inr (omega arith, high, is, more f.inode before)
  ];
}
  where
    more : (q : ℕ) → NoneFor table dev nr (p + 1) q → NoneFor table dev nr p q
    more q before i a b = elim (Bool-cases (i == p)) [
      | inl e ↦
          subst (λ x. (not ((table x).i_dev == dev && (table x).i_num == nr)) ≡ true) (same e) other
      | inr e ↦ before i (ground arith) b
    ]
      where
        same : (i == p) ≡ true → p ≡ i
        same e = ground arith

find_inode_from-FirstFor :
    (n : ℕ) (k : Kernel) (dev nr p : ℕ)
    → ((i : ℕ) → (k.inode_list i).i_mount ≡ 0)
    → p ≤ nr_inode + 1
    → nr_inode + 1 < p + n
    → Returns (λ f k'. (k' ≡ k) × FirstFor k.inode_list dev nr p f) (find_inode_from n dev nr p k)
unfolding find_inode_from
find_inode_from-FirstFor zero k dev nr p free hp h = absurd (omega arith)
find_inode_from-FirstFor (suc n) k dev nr p free hp h = elim (Bool-cases (ltb nr_inode p)) [
  | inl e ↦ rw e (
      returns (
        refl,
        record {
          same_dev = refl;
          same_nr = refl;
          found = inl (refl, λ i a b. absurd (ground arith));
        },
      ))
  | inr e ↦
      elim (Bool-cases (not ((k.inode_list p).i_dev == dev && (k.inode_list p).i_num == nr))) [
        | inl other ↦
            rw (e, other)
              (weaken
                (find_inode_from-FirstFor n k dev nr (p + 1) free (ground arith) (omega arith))
                λ f k' (same, first). (same, FirstFor-behind k.inode_list dev nr p f other first))
        | inr match ↦
            let plain : ((k.inode_list p).i_mount == 0) ≡ true = ground (arith, free p) in
            rw (e, match, plain)
              (returns (
                refl,
                record {
                  same_dev = refl;
                  same_nr = refl;
                  found = inr (
                    omega arith,
                    ground arith,
                    (ground arith, ground arith),
                    λ i a b. absurd (omega arith),
                  );
                },
              ))
      ]
]

-- On a table in which nothing is mounted, `find_inode` of a device other than 0 returns the first
-- entry for the inode, or `null` if there is none, with the device and the number that it was given,
-- and changes nothing. One round for each entry and one more are enough.
pub find_inode-FirstFor :
    (fuel : ℕ) (k : Kernel) (dev nr : ℕ)
    → nr_inode < fuel
    → dev ≢ 0
    → ((i : ℕ) → (k.inode_list i).i_mount ≡ 0)
    → Returns (λ f k'. (k' ≡ k) × FirstFor k.inode_list dev nr 1 f) (find_inode fuel dev nr k)
unfolding find_inode
find_inode-FirstFor fuel k dev nr h given free =
    let some_device : (dev == 0) ≡ false = ground arith in
    rw some_device (find_inode_from-FirstFor fuel k dev nr 1 free (omega arith) (omega arith))
