-- ===== src/Tests/Cache.antt =====
-- The machine with block 2 of its disk in the cache, and a file whose only table that block is.
use eg_gs.Base.{ℕ, ◌≡◌, inr, refl, Bool, false, Ram, arith, ◌==◌, if◌then◌else◌}
use eg_gs.Kernel.{Kernel, Inode}
use eg_gs.Kernel.Result.{Returns, ok, and_then}
use eg_gs.Buffer.{read_buff, put_buff}
use eg_gs.Buffer.Hit.{Cached, held, read_buff-hit, put_buff-read_buff}
use eg_gs.Inode.{no_inode, find_inode, choose_inode}
use eg_gs.Inode.Choice.{AsGood, choose_inode-least}
use eg_gs.Inode.Lookup.{FirstFor, find_inode-FirstFor}
use eg_gs.Inode.Disk.{load_inode, store_inode}
use eg_gs.Inode.Disk.Stored.{Fits, SameDisk, load_inode-store_inode}
use eg_gs.Inode.Tree.{locate_by_inode}
use eg_gs.Inode.Tree.Located.{CachedTables, block_of_file, entry, locate_by_inode-block}
use eg_gs.Tests.{idle, machine, head_buffer}

abbrev file : Inode
file = record no_inode { i_dev = 0x301; i_size = 8192; i_zone = λ n. if n == 7 then 2 else 0 }

abbrev warm : Kernel
warm = record machine { hash_table = λ _. 1; inode_list = λ _. file }

block_two-Cached : Cached warm 0x301 2 1 0
block_two-Cached = record {
  present = record { chain = (refl, omega arith, refl); unlocked = refl; users = omega arith };
  valid = omega arith;
}

read_buff-hit_example : read_buff idle 1 0x301 2 warm ≡ ok 1 (held warm 1)
read_buff-hit_example = read_buff-hit idle 1 block_two-Cached (omega arith)

put_buff-read_buff_example :
    and_then (read_buff idle 1 0x301 2 warm) (put_buff idle 1)
    ≡ ok tt (record warm { interrupts = false })
put_buff-read_buff_example = put_buff-read_buff idle 1 block_two-Cached (omega arith)

abbrev disk_bytes : ℕ → Ram ℕ
disk_bytes _ = head_buffer.b_data

file-CachedTables : CachedTables warm 0x301 1 disk_bytes file.i_zone
file-CachedTables = record {
  single = λ _. record {
    bh = 1;
    steps = 0;
    cached = block_two-Cached;
    near = omega arith;
    bytes = refl;
  };
  double = λ h. absurd (h refl);
  below = λ j _ h. absurd (h (unfold entry in refl));
}

locate_by_inode-block_example :
    (b : Bool) × (locate_by_inode idle 1 1 7 false warm
      ≡ ok (block_of_file disk_bytes file.i_zone 7) (record warm { interrupts = b }))
locate_by_inode-block_example =
    locate_by_inode-block idle 1 warm 1 disk_bytes 7 (omega arith) file-CachedTables

file-Fits : Fits file
file-Fits = record {
  mode = omega arith;
  uid = omega arith;
  size = omega arith;
  mtime = omega arith;
  gid = omega arith;
  nlinks = omega arith;
  zone = λ n. ground arith;
}

load_inode-store_inode_example :
    SameDisk (load_inode (store_inode (λ _. 7) 64 file) 64 no_inode) file
    × (store_inode (λ _. 7) 64 file 96 ≡ 7)
load_inode-store_inode_example =
    load_inode-store_inode (λ _. 7) 64 file no_inode 96 file-Fits (inr (omega arith))

find_inode-FirstFor_example :
    Returns
      (λ f k'. (k' ≡ warm) × FirstFor warm.inode_list 0x301 0 1 f)
      (find_inode 33 0x301 0 warm)
find_inode-FirstFor_example =
    find_inode-FirstFor 33 warm 0x301 0 (omega arith) (omega arith) (λ i. refl)

choose_inode-least_example :
    ((warm.inode_list (choose_inode 32 warm.inode_list 32 0).1).i_count ≡ 0)
    × AsGood warm.inode_list (choose_inode 32 warm.inode_list 32 0).1 5
choose_inode-least_example =
    choose_inode-least warm.inode_list 32 5 (omega arith) (omega arith) (omega arith) (omega arith)
      refl
