-- ===== src/Buffer/Queues/Link.antt =====
-- What `insert_into_queues` does, as one change of the state: the buffer becomes the last of the free
-- list and the first of its chain.
use eg_gs.Base.{
  ℕ, ◌≡◌, refl, ap, ◌∙◌, fun_ext, true, not, ◌&&◌, Bool-cases, inl, inr, Ram, arith, ◌==◌,
  if◌then◌else◌,
}
use eg_gs.Kernel.{Kernel, Ptr, null, BufferHead}
use eg_gs.Kernel.Result.{ok}
use eg_gs.Buffer.Queues.{insert_into_hash, insert_into_free, insert_into_queues}
use eg_gs.Buffer.Queues.Unlink.{chain_of, same_lists}

abbrev pub put_last : Kernel → Ptr → Kernel
put_last k bh =
    let head = k.free_list in
    let last = (k.buffers head).b_prev_free in
    record k {
      buffers = λ p. record (k.buffers p) {
        b_next_free = if last == p then bh else if bh == p then head else (k.buffers p).b_next_free;
        b_prev_free = if head == p then bh else if bh == p then last else (k.buffers p).b_prev_free;
      };
    }

insert_into_free-put_last : (k : Kernel) (bh : Ptr) → insert_into_free bh k ≡ ok tt (put_last k bh)
unfolding insert_into_free
insert_into_free-put_last k bh = same_lists k _ (put_last k bh).buffers _ _ (λ p. ground arith) refl

-- The links of `bh` become those of the first of its chain, if it has a device.
abbrev pub put_first : Kernel → Ptr → Kernel
put_first k bh =
    let b = k.buffers bh in
    let h = chain_of b in
    let head = k.hash_table h in
    record k {
      buffers = λ p. record (k.buffers p) {
        b_next = if bh == p then (if b.b_dev == 0 then null else head) else (k.buffers p).b_next;
        b_prev =
            if not (b.b_dev == 0) && head == p
            then bh
            else if bh == p
            then null
            else (k.buffers p).b_prev;
      };
      hash_table = λ i. if not (b.b_dev == 0) && h == i then bh else k.hash_table i;
    }

same_chains :
    (k : Kernel) (bs new : Ram BufferHead) (f g : Ram Ptr)
    → ((p : Ptr) → bs p ≡ new p)
    → ((i : ℕ) → f i ≡ g i)
    → ok tt (record k { buffers = bs; hash_table = f })
      ≡ ok tt (record k { buffers = new; hash_table = g })
same_chains k bs new f g h e =
    ap (λ (x : Ram BufferHead). ok tt (record k { buffers = x; hash_table = f })) (fun_ext h)
    ∙ ap (λ (x : Ram Ptr). ok tt (record k { buffers = new; hash_table = x })) (fun_ext e)

insert_into_hash-put_first :
    (k : Kernel) (bh : Ptr) → insert_into_hash bh k ≡ ok tt (put_first k bh)
unfolding insert_into_hash
insert_into_hash-put_first k bh =
    let self : (bh == bh) ≡ true = ground arith in
    elim (Bool-cases ((k.buffers bh).b_dev == 0)) [
      | inl e ↦ rw (self, e) (same_chains k _ _ _ _ (λ p. ground arith) (λ i. refl))
      | inr e ↦ rw (self, e) (same_chains k _ _ _ _ (λ p. ground arith) (λ i. ground arith))
    ]

pub insert_into_queues-linked :
    (k : Kernel) (bh : Ptr) → insert_into_queues bh k ≡ ok tt (put_first (put_last k bh) bh)
unfolding insert_into_queues
insert_into_queues-linked k bh =
    rw (insert_into_free-put_last k bh) (insert_into_hash-put_first (put_last k bh) bh)
