-- ===== src/Inode/Life.antt =====
-- The references to an inode, from the first to the last one, and its creation and deletion.
use eg_gs.Base.{ℕ, zero, suc, ◌+◌, ◌-◌, ◌%◌, ◌^◌, not, ◌&&◌, ltb, ◌==◌, if◌then◌else◌}
use eg_gs.Kernel.{Ptr, null}
use eg_gs.Kernel.Device.{Device}
use eg_gs.Kernel.Result.{M, Void, ◌>>=◌, ◌>>◌, pure, skip, fail, spin}
use eg_gs.Super.{add_inode_bitmap, free_inode_bitmap}
use eg_gs.Inode.{inode_at, set_inode, wait_on_inode, find_inode, no_inode, Place}
use eg_gs.Inode.Sync.{new_inode, sync_inode_to_buff, read_inode_from_buff}
use eg_gs.Inode.Tree.{truncate}

module _ (d : Device) (fuel : ℕ) where
  unfoldable pub retain_inode_rounds : ℕ → (dev nr : ℕ) → M Place
  retain_inode_rounds zero dev nr = spin
  retain_inode_rounds (suc n) dev nr =
      let again : Place → M Place = λ f. retain_inode_rounds n f.dev f.nr in
      do
        f ← find_inode fuel dev nr
        if f.inode == null then pure f else (do
          wait_on_inode d fuel f.inode
          i ← inode_at f.inode
          if not (i.i_dev == f.dev && i.i_num == f.nr)
              then again f
              else set_inode f.inode (λ i. record i { i_count = (i.i_count + 1) % 2 ^ 16 })
                >> pure f)

  unfoldable pub retain_inode : (dev nr : ℕ) → M Place
  unfolding retain_inode_rounds
  retain_inode dev nr =
      if dev == 0 then fail "retain inode with dev==0" else retain_inode_rounds fuel dev nr

  unfoldable pub get_inode_rounds : ℕ → (dev nr : ℕ) → M Ptr
  get_inode_rounds zero dev nr = spin
  get_inode_rounds (suc n) dev nr =
      let again : Place → M Ptr = λ f. get_inode_rounds n f.dev f.nr in
      do
        f ← retain_inode dev nr
        p ← if f.inode == null then new_inode d fuel f.dev f.nr else pure f.inode
        if p == null then again f else pure p

  unfoldable pub get_inode : (dev nr : ℕ) → M Ptr
  unfolding get_inode_rounds
  get_inode dev nr = get_inode_rounds fuel dev nr

  unfoldable pub read_inode : (dev nr : ℕ) → M Ptr
  read_inode dev nr = do
    p ← get_inode dev nr
    i ← inode_at p
    if i.i_nlinks == 0 then read_inode_from_buff d fuel p else skip
    pure p

  unfoldable pub delete_inode : Ptr → M Void
  delete_inode p = do
    i ← inode_at p
    if p == null
        then skip
        else if i.i_dev == 0
        then set_inode p (λ _. no_inode)
        else if ltb 1 i.i_count
        then fail "free_inode"
        else if not (i.i_nlinks == 0)
        then fail "trying to free inode with links"
        else free_inode_bitmap d fuel i.i_dev i.i_num >> set_inode p (λ _. no_inode)

  -- From `repeat:` on.
  unfoldable pub put_inode_rounds : ℕ → Ptr → M Void
  put_inode_rounds zero p = spin
  put_inode_rounds (suc n) p =
      let again = put_inode_rounds n p in
      do
        i ← inode_at p
        if i.i_count == 1 && i.i_nlinks == 0
            then truncate d fuel p >> delete_inode p
            else if i.i_count == 1 && not (i.i_dirt == 0)
            then (do sync_inode_to_buff d fuel p; wait_on_inode d fuel p; again)
            else set_inode p (λ i. record i { i_count = (i.i_count + 2 ^ 16 - 1) % 2 ^ 16 })

  unfoldable pub put_inode : Ptr → M Void
  unfolding put_inode_rounds
  put_inode p = if p == null then skip else (do
    wait_on_inode d fuel p
    i ← inode_at p
    if i.i_count == 0 then fail "iput: trying to free free inode" else put_inode_rounds fuel p)

  unfoldable pub create_inode : (dev : ℕ) → M Ptr
  create_inode dev = do
    nr ← add_inode_bitmap d fuel dev
    if nr == 0 then pure null else (do
      p ← new_inode d fuel dev nr
      if p == null
          then pure null
          else set_inode p (λ i. record i { i_nlinks = 1; i_dirt = 1 }) >> pure p)
