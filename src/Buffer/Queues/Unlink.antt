-- ===== src/Buffer/Queues/Unlink.antt =====
-- What `remove_from_queues` does, as one change of the state: to the links of the neighbours, the head
-- of the chain and the head of the free list.
use eg_gs.Base.{
  ℕ, ◌≡◌, ◌≢◌, refl, ap, ◌∙◌, fun_ext, Bool, true, false, not, ◌&&◌, ◌||◌, Bool-cases, inl, inr,
  update, Ram, arith, ◌==◌, if◌then◌else◌,
}
use eg_gs.Kernel.{Kernel, Ptr, null, BufferHead}
use eg_gs.Kernel.Result.{ok, skip, modify, set_buffer}
use eg_gs.Buffer.Queues.{hash_index, remove_from_hash, remove_from_free, remove_from_queues}

-- The chain of a buffer.
abbrev pub chain_of : BufferHead → ℕ
chain_of b = hash_index b.b_dev b.b_blocknr

-- The heads after `q->b_prev = v`, `q->b_next = v`, and so on, if `q` is not `NULL`.
abbrev pub with_prev : Ram BufferHead → (q v : Ptr) → Ram BufferHead
with_prev bs q v p = record (bs p) {
  b_prev = if q == p && not (p == null) then v else (bs p).b_prev;
}

abbrev pub with_next : Ram BufferHead → (q v : Ptr) → Ram BufferHead
with_next bs q v p = record (bs p) {
  b_next = if q == p && not (p == null) then v else (bs p).b_next;
}

-- `bh` is taken out of its chain.
abbrev pub unhashed : Kernel → Ptr → Kernel
unhashed k bh = record k {
  buffers =
      with_next (with_prev k.buffers (k.buffers bh).b_next (k.buffers bh).b_prev)
        (k.buffers bh).b_prev (k.buffers bh).b_next;
  hash_table = λ h.
      if chain_of (k.buffers bh) == h && k.hash_table h == bh
      then (k.buffers bh).b_next
      else k.hash_table h;
}

pub set_buffer_unless :
    (k : Kernel) (c : Bool) (q : Ptr) (f : BufferHead → BufferHead) (new : Ram BufferHead)
    → ((p : Ptr) → (if c then k.buffers p else update k.buffers q (f (k.buffers q)) p) ≡ new p)
    → (if c then skip else set_buffer q f) k ≡ ok tt (record k { buffers = new })
set_buffer_unless k true q f new h =
    ap (λ (bs : Ram BufferHead). ok tt (record k { buffers = bs })) (fun_ext h)
set_buffer_unless k false q f new h =
    ap (λ (bs : Ram BufferHead). ok tt (record k { buffers = bs })) (fun_ext h)

pub set_head_if :
    (k : Kernel) (c : Bool) (h : ℕ) (v : Ptr) (new : Ram Ptr)
    → ((i : ℕ) → (if c then update k.hash_table h v i else k.hash_table i) ≡ new i)
    → (if c then modify (λ k. record k { hash_table = update k.hash_table h v }) else skip) k
      ≡ ok tt (record k { hash_table = new })
set_head_if k true h v new e = ap (λ (t : Ram Ptr). ok tt (record k { hash_table = t })) (fun_ext e)
set_head_if k false h v new e =
    ap (λ (t : Ram Ptr). ok tt (record k { hash_table = t })) (fun_ext e)

pub remove_from_hash-unhashed :
    (k : Kernel) (bh : Ptr)
    → (k.buffers bh).b_next ≢ bh
    → (k.buffers bh).b_prev ≢ bh
    → remove_from_hash bh k ≡ ok tt (unhashed k bh)
unfolding remove_from_hash
remove_from_hash-unhashed k bh h g =
    let next : ((k.buffers bh).b_next == bh) ≡ false = ground arith in
    let prev : ((k.buffers bh).b_prev == bh) ≡ false = ground arith in
    let b = k.buffers bh in
    let k1 = record k { buffers = with_prev k.buffers b.b_next b.b_prev } in
    let k2 = record k { buffers = with_next k1.buffers b.b_prev b.b_next } in
    let first =
      set_buffer_unless k (b.b_next == null) b.b_next (λ n. record n { b_prev = b.b_prev })
        k1.buffers (λ p. ground arith) in
    let second =
      set_buffer_unless k1 (b.b_prev == null) b.b_prev (λ n. record n { b_next = b.b_next })
        k2.buffers (λ p. ground arith) in
    rw first (
      rw next (
        rw second (
          rw prev (
            set_head_if k2 (k.hash_table (chain_of b) == bh) (chain_of b) b.b_next
              (unhashed k bh).hash_table (λ i. ground arith)))))

abbrev pub with_prev_free : Ram BufferHead → (q v : Ptr) → Ram BufferHead
with_prev_free bs q v p = record (bs p) { b_prev_free = if q == p then v else (bs p).b_prev_free }

abbrev pub with_next_free : Ram BufferHead → (q v : Ptr) → Ram BufferHead
with_next_free bs q v p = record (bs p) { b_next_free = if q == p then v else (bs p).b_next_free }

-- `bh` is taken off the free list.
abbrev pub taken_off : Kernel → Ptr → Kernel
taken_off k bh =
    let a = (k.buffers bh).b_prev_free in
    let c = (k.buffers bh).b_next_free in
    record k {
      buffers = with_prev_free (with_next_free k.buffers a c) c a;
      free_list = if k.free_list == bh then c else k.free_list;
    }

-- Two states that differ in the heads and the head of the free list.
pub same_lists :
    (k : Kernel) (bs new : Ram BufferHead) (f g : Ptr)
    → ((p : Ptr) → bs p ≡ new p)
    → f ≡ g
    → ok tt (record k { buffers = bs; free_list = f })
      ≡ ok tt (record k { buffers = new; free_list = g })
same_lists k bs new f g h e =
    ap (λ (x : Ram BufferHead). ok tt (record k { buffers = x; free_list = f })) (fun_ext h)
    ∙ ap (λ (x : Ptr). ok tt (record k { buffers = new; free_list = x })) e

pub remove_from_free-taken_off :
    (k : Kernel) (bh : Ptr)
    → (k.buffers bh).b_prev_free ≢ null
    → (k.buffers bh).b_next_free ≢ null
    → remove_from_free bh k ≡ ok tt (taken_off k bh)
unfolding remove_from_free
remove_from_free-taken_off k bh h g =
    let linked : ((k.buffers bh).b_prev_free == null || (k.buffers bh).b_next_free == null)
        ≡ false =
      ground arith in
    let pointwise = same_lists k _ (taken_off k bh).buffers in
    rw linked (elim (Bool-cases (k.free_list == bh)) [
      | inl e ↦ rw e (pointwise _ _ (λ p. ground arith) (ground arith))
      | inr e ↦ rw e (pointwise _ _ (λ p. ground arith) refl)
    ])

pub remove_from_queues-unlinked :
    (k : Kernel) (bh : Ptr)
    → (k.buffers bh).b_next ≢ bh
    → (k.buffers bh).b_prev ≢ bh
    → (k.buffers bh).b_prev_free ≢ null
    → (k.buffers bh).b_next_free ≢ null
    → remove_from_queues bh k ≡ ok tt (taken_off (unhashed k bh) bh)
unfolding remove_from_queues
remove_from_queues-unlinked k bh n p a c =
    rw (remove_from_hash-unhashed k bh n p) (remove_from_free-taken_off (unhashed k bh) bh a c)
