-- ===== src/Buffer/Queues.antt =====
-- The lists of buffer.c: the chains of the hash table and the circular list `free_list`, on which
-- every buffer stands.
pub mod Chains
pub mod Link
pub mod Ring
pub mod Same
pub mod Unlink
use eg_gs.Base.{ℕ, ◌%◌, bit_xor, update, ◌==◌, ◌||◌, if◌then◌else◌}
use eg_gs.Kernel.{Ptr, null}
use eg_gs.Kernel.Result.{M, Void, ◌>>=◌, ◌>>◌, skip, fail, read, modify, buffer, set_buffer}

abbrev pub nr_hash : ℕ
nr_hash = 307

-- `_hashfn`.
unfoldable pub hash_index : (dev block : ℕ) → ℕ
hash_index dev block = bit_xor dev block % nr_hash

-- `hash(dev, block) = bh`.
abbrev pub set_hash : (dev block : ℕ) → Ptr → M Void
set_hash dev block bh =
    modify (λ k. record k { hash_table = update k.hash_table (hash_index dev block) bh })

unfoldable pub remove_from_hash : Ptr → M Void
remove_from_hash bh = do
  b ← buffer bh
  if b.b_next == null then skip else set_buffer b.b_next (λ n. record n { b_prev = b.b_prev })
  b ← buffer bh
  if b.b_prev == null then skip else set_buffer b.b_prev (λ p. record p { b_next = b.b_next })
  b ← buffer bh
  head ← read (λ k. k.hash_table (hash_index b.b_dev b.b_blocknr))
  if head == bh then set_hash b.b_dev b.b_blocknr b.b_next else skip

unfoldable pub remove_from_free : Ptr → M Void
remove_from_free bh = do
  b ← buffer bh
  if b.b_prev_free == null || b.b_next_free == null then fail "Free block list corrupted" else (do
    set_buffer b.b_prev_free (λ p. record p { b_next_free = b.b_next_free })
    b ← buffer bh
    set_buffer b.b_next_free (λ n. record n { b_prev_free = b.b_prev_free })
    b ← buffer bh
    head ← read (λ k. k.free_list)
    if head == bh then modify (λ k. record k { free_list = b.b_next_free }) else skip)

unfoldable pub remove_from_queues : Ptr → M Void
remove_from_queues bh = remove_from_hash bh >> remove_from_free bh

unfoldable pub insert_into_free : Ptr → M Void
insert_into_free bh = do
  head ← read (λ k. k.free_list)
  set_buffer bh (λ b. record b { b_next_free = head })
  h ← buffer head
  set_buffer bh (λ b. record b { b_prev_free = h.b_prev_free })
  h ← buffer head
  set_buffer h.b_prev_free (λ l. record l { b_next_free = bh })
  set_buffer head (λ h. record h { b_prev_free = bh })

-- The last write goes through `b_next` also when that is `NULL`.
unfoldable pub insert_into_hash : Ptr → M Void
insert_into_hash bh = do
  set_buffer bh (λ b. record b { b_prev = null; b_next = null })
  b ← buffer bh
  if b.b_dev == 0 then skip else (do
    head ← read (λ k. k.hash_table (hash_index b.b_dev b.b_blocknr))
    set_buffer bh (λ b. record b { b_next = head })
    set_hash b.b_dev b.b_blocknr bh
    b ← buffer bh
    set_buffer b.b_next (λ n. record n { b_prev = bh }))

unfoldable pub insert_into_queues : Ptr → M Void
insert_into_queues bh = insert_into_free bh >> insert_into_hash bh
