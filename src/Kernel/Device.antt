-- ===== src/Kernel/Device.antt =====
-- What the block layer asks of a driver: a function that starts a request, and what its interrupts
-- do between two tests of a lock. The driver leaves alone which block each buffer holds, the users
-- of the buffer and the lists that it is on.
use eg_gs.Base.{◌≡◌, ◌∙◌, refl}
use eg_gs.Kernel.{Kernel, Ptr, BufferHead}
use eg_gs.Kernel.Result.{M, Void, Ensures}

-- The fields of a buffer head that a driver does not change.
pub record SameHead (a b : BufferHead) : Type 0 where
  pub same_blocknr : b.b_blocknr ≡ a.b_blocknr
  pub same_dev : b.b_dev ≡ a.b_dev
  pub same_dirt : b.b_dirt ≡ a.b_dirt
  pub same_count : b.b_count ≡ a.b_count
  pub same_prev : b.b_prev ≡ a.b_prev
  pub same_next : b.b_next ≡ a.b_next
  pub same_prev_free : b.b_prev_free ≡ a.b_prev_free
  pub same_next_free : b.b_next_free ≡ a.b_next_free

pub SameHead-refl : (a : BufferHead) → SameHead a a
SameHead-refl a = record {
  same_blocknr = refl;
  same_dev = refl;
  same_dirt = refl;
  same_count = refl;
  same_prev = refl;
  same_next = refl;
  same_prev_free = refl;
  same_next_free = refl;
}

pub record Quiet (k k' : Kernel) : Type 0 where
  pub heads : (p : Ptr) → SameHead (k.buffers p) (k'.buffers p)
  pub same_hash : k'.hash_table ≡ k.hash_table
  pub same_free : k'.free_list ≡ k.free_list
  pub same_number : k'.nr_buffers ≡ k.nr_buffers
  pub same_super : k'.super_block_list ≡ k.super_block_list
  pub same_inodes : k'.inode_list ≡ k.inode_list
  pub same_last : k'.last_inode ≡ k.last_inode

pub Quiet-refl : (k : Kernel) → Quiet k k
Quiet-refl k = record {
  heads = λ p. SameHead-refl (k.buffers p);
  same_hash = refl;
  same_free = refl;
  same_number = refl;
  same_super = refl;
  same_inodes = refl;
  same_last = refl;
}

pub Quiet-trans : {a b c : Kernel} → Quiet a b → Quiet b c → Quiet a c
Quiet-trans p q = record {
  heads = λ x. joined (p.heads x) (q.heads x);
  same_hash = q.same_hash ∙ p.same_hash;
  same_free = q.same_free ∙ p.same_free;
  same_number = q.same_number ∙ p.same_number;
  same_super = q.same_super ∙ p.same_super;
  same_inodes = q.same_inodes ∙ p.same_inodes;
  same_last = q.same_last ∙ p.same_last;
}
  where
    joined : {a b c : BufferHead} → SameHead a b → SameHead b c → SameHead a c
    joined h g = record {
      same_blocknr = g.same_blocknr ∙ h.same_blocknr;
      same_dev = g.same_dev ∙ h.same_dev;
      same_dirt = g.same_dirt ∙ h.same_dirt;
      same_count = g.same_count ∙ h.same_count;
      same_prev = g.same_prev ∙ h.same_prev;
      same_next = g.same_next ∙ h.same_next;
      same_prev_free = g.same_prev_free ∙ h.same_prev_free;
      same_next_free = g.same_next_free ∙ h.same_next_free;
    }

pub record Device : Type 0 where
  pub request_fn : M Void
  pub interrupt : M Void
  pub request_fn-Quiet : (k : Kernel) → Ensures (λ _ k'. Quiet k k') (request_fn k)
  pub interrupt-Quiet : (k : Kernel) → Ensures (λ _ k'. Quiet k k') (interrupt k)
