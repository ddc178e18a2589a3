-- ===== src/Buffer/Queues/Ring.antt =====
-- The free list as a ring of `n` buffers, of which `nth i` is the one that is `i` steps behind the
-- head: taking a buffer off, and putting it last.
use eg_gs.Base.{
  ℕ, suc, ◌+◌, ◌-◌, ◌<◌, ◌≤◌, ◌≡◌, ◌≢◌, refl, ap, ◌∙◌, sym, Bool, true, false, arith, ◌==◌, ltb,
  if◌then◌else◌,
}
use eg_gs.Kernel.{Kernel, Ptr, null}
use eg_gs.Buffer.Queues.Unlink.{taken_off}
use eg_gs.Buffer.Queues.Link.{put_last}

abbrev pub after : (n i : ℕ) → ℕ
after n i = if i + 1 == n then 0 else i + 1

abbrev pub before : (n i : ℕ) → ℕ
before n i = if i == 0 then n - 1 else i - 1

pub record Ring (k : Kernel) (n : ℕ) (nth : ℕ → Ptr) : Type 0 where
  pub inhabited : 0 < n
  pub head : k.free_list ≡ nth 0
  pub not_null : (i : ℕ) → i < n → nth i ≢ null
  pub in_range : (i : ℕ) → i < n → nth i ≤ k.nr_buffers
  pub distinct : (i j : ℕ) → i < n → j < n → nth i ≡ nth j → i ≡ j
  pub next : (i : ℕ) → i < n → (k.buffers (nth i)).b_next_free ≡ nth (after n i)
  pub prev : (i : ℕ) → i < n → (k.buffers (nth i)).b_prev_free ≡ nth (before n i)

abbrev pub without : (j : ℕ) → (ℕ → Ptr) → ℕ → Ptr
without j nth i = if ltb i j then nth i else nth (i + 1)

pub nth_test :
    {k : Kernel} {n : ℕ} {nth : ℕ → Ptr} (r : Ring k n nth) (i j : ℕ)
    → i < n
    → j < n
    → (nth i == nth j) ≡ (i == j)
nth_test r i j l m = ground (arith, r.distinct i j l m)

-- Where the elements of the shorter ring stood.
abbrev skipping : (j i : ℕ) → ℕ
skipping j i = if ltb i j then i else i + 1

without-skipping : (j i : ℕ) (nth : ℕ → Ptr) → without j nth i ≡ nth (skipping j i)
without-skipping j i nth = ground arith

skipping_after :
    (n j i : ℕ)
    → j < suc n
    → i < n
    → 0 < n
    → (if before (suc n) j == skipping j i then after (suc n) j else after (suc n) (skipping j i))
      ≡ skipping j (after n i)
skipping_after n j i h l b = ground arith

skipping_before :
    (n j i : ℕ)
    → j < suc n
    → i < n
    → 0 < n
    → (if after (suc n) j == skipping j i then before (suc n) j else before (suc n) (skipping j i))
      ≡ skipping j (before n i)
skipping_before n j i h l b = ground arith

if-nth :
    (nth : ℕ → Ptr) (t : Bool) (a b : ℕ) → (if t then nth a else nth b) ≡ nth (if t then a else b)
if-nth nth true a b = refl
if-nth nth false a b = refl

pub taken_off-Ring :
    (k : Kernel) (n : ℕ) (nth : ℕ → Ptr) (j : ℕ)
    → Ring k (suc n) nth
    → j < suc n
    → 0 < n
    → Ring (taken_off k (nth j)) n (without j nth)
taken_off-Ring k n nth j r h big = record {
  inhabited = big;
  head = ground (arith, r.head, r.next j, r.distinct 0 j);
  not_null = λ i l. ground (arith, r.not_null i, r.not_null (i + 1));
  in_range = λ i l. ground (arith, r.in_range i, r.in_range (i + 1));
  distinct = λ i i' l l' e. ground (
    arith,
    r.distinct i i',
    r.distinct (i + 1) i',
    r.distinct i (i' + 1),
    r.distinct (i + 1) (i' + 1),
  );
  next = λ i l.
      let here = skipping j i in
      let in_range : here < suc n = ground arith in
      rw (without-skipping j i nth) (
        rw (r.prev j h, r.next j h, r.next here in_range)
          (rw (nth_test r (before (suc n) j) here (ground arith) in_range) (
            if-nth nth (before (suc n) j == here) (after (suc n) j) (after (suc n) here)
            ∙ ap nth (skipping_after n j i h l big)
            ∙ sym (without-skipping j (after n i) nth))));
  prev = λ i l.
      let here = skipping j i in
      let in_range : here < suc n = ground arith in
      rw (without-skipping j i nth) (
        rw (r.prev j h, r.next j h, r.prev here in_range)
          (rw (nth_test r (after (suc n) j) here (ground arith) in_range) (
            if-nth nth (after (suc n) j == here) (before (suc n) j) (before (suc n) here)
            ∙ ap nth (skipping_before n j i h l big)
            ∙ sym (without-skipping j (before n i) nth))));
}

abbrev pub then_last : (n : ℕ) → (ℕ → Ptr) → Ptr → ℕ → Ptr
then_last n nth bh i = if i == n then bh else nth i

pub put_last-Ring :
    (k : Kernel) (n : ℕ) (nth : ℕ → Ptr) (bh : Ptr)
    → Ring k n nth
    → bh ≢ null
    → bh ≤ k.nr_buffers
    → ((i : ℕ) → i < n → nth i ≢ bh)
    → Ring (put_last k bh) (suc n) (then_last n nth bh)
put_last-Ring k n nth bh r there own new = record {
  inhabited = omega arith;
  head = ground (arith, r.head, r.inhabited);
  not_null = λ i l. ground (arith, r.not_null i);
  in_range = λ i l. ground (arith, r.in_range i);
  distinct = λ i j l m e. ground (arith, r.distinct i j, new i, new j);
  next = λ i l.
      ground
        (arith, r.head, r.inhabited, r.prev 0, r.next i, r.distinct i (n - 1), new i, new (n - 1));
  prev =
      λ i l. ground (arith, r.head, r.inhabited, r.prev 0, r.prev i, r.distinct i 0, new i, new 0);
}

-- A single buffer stays the head of the list, and is its own neighbour.
pub taken_off-Ring_single :
    (k : Kernel) (nth : ℕ → Ptr) → Ring k 1 nth → Ring (taken_off k (nth 0)) 1 nth
taken_off-Ring_single k nth r = record {
  inhabited = r.inhabited;
  head = ground (arith, r.head, r.next 0);
  not_null = r.not_null;
  in_range = r.in_range;
  distinct = r.distinct;
  next = λ i l. ground (arith, r.next 0, r.prev 0);
  prev = λ i l. ground (arith, r.next 0, r.prev 0);
}

pub put_last-Ring_single :
    (k : Kernel) (nth : ℕ → Ptr)
    → Ring k 1 nth
    → Ring (put_last k (nth 0)) 1 (then_last 0 (without 0 nth) (nth 0))
put_last-Ring_single k nth r = record {
  inhabited = r.inhabited;
  head = r.head;
  not_null = λ i l. ground (arith, r.not_null 0);
  in_range = λ i l. ground (arith, r.in_range 0);
  distinct = λ i j l m e. omega arith;
  next = λ i l. ground (arith, r.head, r.prev 0);
  prev = λ i l. ground (arith, r.head, r.prev 0);
}

pub Ring-linked :
    {k : Kernel} {n : ℕ} {nth : ℕ → Ptr} (r : Ring k n nth) (j : ℕ)
    → j < n
    → ((k.buffers (nth j)).b_prev_free ≢ null) × ((k.buffers (nth j)).b_next_free ≢ null)
Ring-linked {n = n} r j l =
    ground (arith, r.prev j l, r.next j l, r.not_null (before n j), r.not_null (after n j))
