-- ===== src/Buffer/Choose.antt =====
-- Which buffer `new_buff` takes: the first of the least bad ones that no one uses, in the order of the
-- free list.
use eg_gs.Base.{
  ℕ, zero, suc, ◌+◌, ◌<◌, ◌≤◌, ◌≡◌, ◌≢◌, refl, ap, subst, ◌∙◌, sym, Bool, true, false, ◌&&◌, ◌||◌,
  Bool-cases, inl, inr, arith, ltb, ◌==◌, if◌then◌else◌, Option, some, none,
}
use eg_gs.Kernel.{Kernel, Ptr, null}
use eg_gs.Buffer.{choose_buff, badness}
use eg_gs.Buffer.Queues.Ring.{Ring, after, nth_test}

-- Of the first `limit` buffers of the list, `nth j` is the first of the least bad unused ones.
pub record FirstLeast (k : Kernel) (limit : ℕ) (nth : ℕ → Ptr) (j : ℕ) (bh : Ptr) : Type 0 where
  pub here : bh ≡ nth j
  pub below : j < limit
  pub unused : (k.buffers (nth j)).b_count ≡ 0
  pub least :
      (m : ℕ)
      → m < limit
      → (k.buffers (nth m)).b_count ≡ 0
      → badness (k.buffers (nth j)) ≤ badness (k.buffers (nth m))
  pub earlier :
      (m : ℕ)
      → m < j
      → (k.buffers (nth m)).b_count ≡ 0
      → badness (k.buffers (nth j)) < badness (k.buffers (nth m))

pub data Choice (k : Kernel) (limit : ℕ) (nth : ℕ → Ptr) (bh : Ptr) : Type 0 where
  all_used :
      bh ≡ null → ((m : ℕ) → m < limit → (k.buffers (nth m)).b_count ≢ 0) → Choice k limit nth bh
  first_least : (j : ℕ) → FirstLeast k limit nth j bh → Choice k limit nth bh

abbrev better : Kernel → (tmp bh : Ptr) → Bool
better k tmp bh =
    (k.buffers tmp).b_count == 0
    && (bh == null || ltb (badness (k.buffers tmp)) (badness (k.buffers bh)))

module _ {k : Kernel} {n : ℕ} {nth : ℕ → Ptr} (r : Ring k n nth) where
  -- One buffer more.
  kept :
      (i j : ℕ) (bh : Ptr)
      → i < n
      → better k (nth i) bh ≡ false
      → FirstLeast k i nth j bh
      → FirstLeast k (i + 1) nth j bh
  kept i j bh l e f = record {
    here = f.here;
    below = ground (arith, f.below);
    unused = f.unused;
    least = λ m h u. ground (arith, f.here, f.below, f.least m, r.not_null j);
    earlier = f.earlier;
  }

  taken :
      (i : ℕ) (bh : Ptr)
      → i < n
      → better k (nth i) bh ≡ true
      → Choice k i nth bh
      → FirstLeast k (i + 1) nth i (nth i)
  taken i bh l e (all_used z used) = record {
    here = refl;
    below = omega arith;
    unused = ground arith;
    least = λ m h u. ground (arith, used m);
    earlier = λ m h u. absurd (used m h u);
  }
  taken i bh l e (first_least j f) = record {
    here = refl;
    below = omega arith;
    unused = ground arith;
    least = λ m h u. ground (arith, f.here, f.below, f.least m, r.not_null j);
    earlier = λ m h u. ground (arith, f.here, f.below, f.least m h u, r.not_null j);
  }

  used_on :
      (i : ℕ) (bh : Ptr)
      → better k (nth i) bh ≡ false
      → bh ≡ null
      → ((m : ℕ) → m < i → (k.buffers (nth m)).b_count ≢ 0)
      → (m : ℕ) → m < i + 1
      → (k.buffers (nth m)).b_count ≢ 0
  used_on i bh e z used m h u = ground (arith, used m)

  step :
      (i : ℕ) (bh : Ptr)
      → i < n
      → Choice k i nth bh
      → Choice k (i + 1) nth (if better k (nth i) bh then nth i else bh)
  step i bh l c = elim (Bool-cases (better k (nth i) bh)) [
    | inl e ↦ rw e (first_least i (taken i bh l e c))
    | inr e ↦ rw e (still e c)
  ]
    where
      still : better k (nth i) bh ≡ false → Choice k i nth bh → Choice k (i + 1) nth bh
      still e (all_used z used) = all_used z (used_on i bh e z used)
      still e (first_least j f) = first_least j (kept i j bh l e f)

  -- A buffer that is not bad at all is the first of the least bad ones, if there was none before.
  at_once :
      (i : ℕ) (bh : Ptr)
      → i < n
      → better k (nth i) bh ≡ true
      → badness (k.buffers (nth i)) ≡ 0
      → Choice k i nth bh
      → FirstLeast k n nth i (nth i)
  at_once i bh l e good c =
      let t = taken i bh l e c in
      record {
        here = refl;
        below = l;
        unused = t.unused;
        least = λ m h u. omega arith;
        earlier = t.earlier;
      }

  end_test : (i : ℕ) → i < n → ((k.buffers (nth i)).b_next_free == k.free_list) ≡ (i + 1 == n)
  end_test i l =
      rw (r.next i l, r.head)
        (nth_test r (after n i) 0 (ground (arith, r.inhabited)) r.inhabited ∙ ground arith)

  choose_from :
      (fuel i : ℕ) (bh : Ptr)
      → i < n
      → n ≤ i + fuel
      → Choice k i nth bh
      → (b : Ptr) × (choose_buff fuel k (nth i) bh ≡ some b) × Choice k n nth b
  unfolding choose_buff
  choose_from zero i bh l f c = absurd (omega arith)
  choose_from (suc fuel) i bh l f c =
      let t = k.buffers (nth i) in
      let best = if better k (nth i) bh then nth i else bh in
      elim (Bool-cases (better k (nth i) bh && badness t == 0)) [
        | inl e ↦ (nth i, rw e refl, first_least i (at_once i bh l (ground arith) (ground arith) c))
        | inr e ↦ elim (Bool-cases (i + 1 == n)) [
          | inl last ↦ (
            best,
            rw (e, end_test i l, last) refl,
            subst (λ m. Choice k m nth best) (ground arith) (step i bh l c),
          )
          | inr more ↦
              let follows : t.b_next_free ≡ nth (i + 1) = ground (arith, r.next i l) in
              let (b, found, chosen) =
                choose_from fuel (i + 1) best (ground arith) (omega arith) (step i bh l c) in
              (b, rw (e, end_test i l, more) (rw follows found), chosen)
        ]
      ]

-- If the free list is a ring of `n` buffers, then with `n` rounds or more the loop of `new_buff`
-- ends. It chooses `NULL` if all buffers of the list are in use, and otherwise an unused one of the
-- least badness, the first of these in the order of the list.
pub choose_buff-Choice :
    {k : Kernel} {n : ℕ} {nth : ℕ → Ptr} (r : Ring k n nth) (fuel : ℕ)
    → n ≤ fuel
    → (bh : Ptr) × (choose_buff fuel k k.free_list null ≡ some bh) × Choice k n nth bh
choose_buff-Choice {k} r fuel h =
    let (bh, found, chosen) =
      choose_from r fuel 0 null r.inhabited (omega arith)
        (all_used refl (λ m l. absurd (omega arith))) in
    (bh, ap (λ p. choose_buff fuel k p null) r.head ∙ found, chosen)

the : Ptr → Option Ptr → Ptr
the p none = p
the p (some q) = q

the_answer : {p q : Ptr} → some p ≡ some q → p ≡ q
unfolding the
the_answer {p} e = ap (the p) e

one_of :
    (P : Ptr → Type 0) (now last : Bool) (first best : Ptr) (rest : Option Ptr) (b : Ptr)
    → P first
    → P best
    → (rest ≡ some b → P b)
    → (if now then some first else if last then some best else rest) ≡ some b
    → P b
one_of P true last first best rest b p q s e = subst P (the_answer e) p
one_of P false true first best rest b p q s e = subst P (the_answer e) q
one_of P false false first best rest b p q s e = s e

-- A buffer of the list, or `NULL`.
abbrev pub On : (n : ℕ) → (ℕ → Ptr) → Ptr → Type 0
On n nth b = b ≢ null → (j : ℕ) × (j < n) × (b ≡ nth j)

On-if :
    {n : ℕ} {nth : ℕ → Ptr} (t : Bool) (p q : Ptr)
    → On n nth p
    → On n nth q
    → On n nth (if t then p else q)
On-if true p q a b = a
On-if false p q a b = b

-- Whatever the rounds, the buffer that is chosen is on the list.
choose_buff-On :
    {k : Kernel} {n : ℕ} {nth : ℕ → Ptr} (r : Ring k n nth) (fuel i : ℕ) (bh b : Ptr)
    → i < n
    → On n nth bh
    → choose_buff fuel k (nth i) bh ≡ some b
    → On n nth b
unfolding choose_buff
choose_buff-On r zero i bh b l from found = ground arith
choose_buff-On {k} {n} {nth} r (suc fuel) i bh b l from found =
    let here : On n nth (nth i) = λ _. (i, l, refl) in
    let best = On-if (better k (nth i) bh) (nth i) bh here from in
    let j = after n i in
    one_of (On n nth) _ _ (nth i) _ _ b here best
      (λ e.
        choose_buff-On r fuel j (if better k (nth i) bh then nth i else bh) b (ground arith) best (
          ap (λ p. choose_buff fuel k p (if better k (nth i) bh then nth i else bh))
            (sym (r.next i l))
          ∙ e))
      found

pub choose_buff-member :
    {k : Kernel} {n : ℕ} {nth : ℕ → Ptr} (r : Ring k n nth) (fuel : ℕ) (b : Ptr)
    → choose_buff fuel k k.free_list null ≡ some b
    → On n nth b
choose_buff-member {k} r fuel b found =
    choose_buff-On r fuel 0 null b r.inhabited (λ z. absurd (z refl))
      (ap (λ p. choose_buff fuel k p null) (sym r.head) ∙ found)
