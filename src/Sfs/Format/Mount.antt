-- ===== src/Sfs/Format/Mount.antt =====
-- What the file system is after formatting, mounting and reloading.
use ecse.Common.{
  ℕ, zero, suc, ◌%◌, ◌<◌, ◌≡◌, ◌≢◌, refl, sym, ◌∙◌, List, [], done, arith, ltb, if◌then◌else◌,
  length, ltb_of_lt,
}
use ecse.Common.Bits.{bit, bit-zero}
use ecse.Common.Int.{pos}
use ecse.Storage.{Block, Blkid, Storage, zero_block, set_word, sfs_write_block}
use ecse.Storage.Laws.{read_inside, write_self, write_other, length-write}
use ecse.Sfs.Layout.{Name, sfs_magic}
use ecse.Sfs.State.{Fs, write_to}
use ecse.Sfs.Freemap.{sfs_alloc_block, alloc_from}
use ecse.Sfs.Freemap.Map.{used}
use ecse.Sfs.Freemap.Alloc.{disk_map}
use ecse.Sfs.Directory.{sfs_find_dir, find_from, sfs_mkdir, make_dir, enter_dir, new_dir}
use ecse.Sfs.Directory.Tree.{HasDirs}
use ecse.Sfs.Directory.Enter.{new_dir_next}
use ecse.Sfs.Format.{fill_super, sfs_mkfs, sfs_print_info, sfs_reloadfs, total_blocks}

abbrev formatted : Fs → Fs
formatted s = (sfs_mkfs s).1

abbrev first_map : Block
first_map = set_word zero_block 0 3

bit_three : (k : ℕ) → bit 3 k ≡ (if ltb k 2 then 1 else 0)
unfolding bit
bit_three zero = refl
bit_three (suc zero) = refl
bit_three (suc (suc k)) = bit-zero k ∙ ground arith

first_map_marks : (j : ℕ) → used first_map j ≡ (if ltb j 2 then 1 else 0)
unfolding used
first_map_marks j = ground (arith, bit_three (j % 32), bit-zero (j % 32))

module _ (s : Fs) where
  disk1 : Storage
  disk1 = sfs_write_block s.disk (fill_super s.sb) 0

  disk2 : Storage
  unfolding disk1
  disk2 = sfs_write_block disk1 zero_block total_blocks

  disk_eq : (formatted s).disk ≡ sfs_write_block disk2 first_map 1
  unfolding sfs_mkfs disk1 disk2
  disk_eq = refl

  long2 : 1024 < disk2.length
  unfolding disk2
  long2 = omega (arith, length-write disk1 zero_block 1024 (omega arith))

  long3 : 1024 < (formatted s).disk.length
  long3 = rw disk_eq (omega (arith, long2, length-write disk2 first_map 1 (omega arith)))

  super_block : (formatted s).disk.block 0 ≡ fill_super s.sb
  unfolding disk1 disk2
  super_block =
      let first = length-write s.disk (fill_super s.sb) 0 (omega arith) in
      rw disk_eq (
        write_other disk2 first_map 1 0 (omega arith) (omega (arith, long2)) (omega arith)
        ∙ write_other disk1 zero_block 1024 0 (omega arith) (omega (arith, first)) (omega arith)
        ∙ write_self s.disk (fill_super s.sb) 0 (omega arith))

  map_block : (formatted s).disk.block 1 ≡ first_map
  map_block = rw disk_eq (write_self disk2 first_map 1 (omega arith))

  -- After `sfs_mkfs` exactly the super block and the freemap are marked as taken.
  pub mkfs_marks : (j : ℕ) → used (disk_map (sfs_mkfs s).1) j ≡ (if ltb j 2 then 1 else 0)
  mkfs_marks j = rw map_block (first_map_marks j)

  -- After `sfs_mkfs` and `sfs_print_info` the file system is mounted, with no directory.
  pub mkfs-HasDirs : HasDirs (sfs_print_info (sfs_mkfs s).1).1 []
  unfolding sfs_print_info
  mkfs-HasDirs =
      let back =
        read_inside (formatted s).disk (formatted s).sb 0 (omega arith) (omega (arith, long3))
        ∙ super_block in
      record {
        mounted = record {
          one_map = rw back (unfold fill_super in refl);
          long = omega (arith, long3);
          words = rw map_block (λ i. ground arith);
          super_used = rw map_block (unfold used bit in refl);
          map_used = rw map_block (unfold used bit in refl);
        };
        synced = super_block ∙ sym back;
        chain = rw back (unfold fill_super in refl);
        taken = tt;
      }

-- The directories survive in the image: a process that reloads it finds the same list.
pub reloadfs-HasDirs :
    (s u : Fs) (ids : List Blkid) → HasDirs s ids → HasDirs (sfs_reloadfs u s.disk).1 ids
unfolding sfs_reloadfs
reloadfs-HasDirs s u ids h =
    let back = read_inside s.disk u.sb 0 (omega arith) (omega (arith, h.mounted.long)) ∙ h.synced in
    record {
      mounted = record {
        one_map = rw back h.mounted.one_map;
        long = h.mounted.long;
        words = h.mounted.words;
        super_used = h.mounted.super_used;
        map_used = h.mounted.map_used;
      };
      synced = h.synced ∙ sym back;
      chain = rw back h.chain;
      taken = h.taken;
    }

-- Straight after `sfs_mkfs`, with no `sfs_print_info`, the super block in memory is zero: then
-- `sfs_mkdir` reports success and writes the new directory over the super block on disk.
pub mkdir_unmounted :
    (rounds : ℕ) (s : Fs) (name : Name)
    → 0 < rounds
    → length name < 120
    → (u : Fs) × (sfs_mkdir rounds (sfs_mkfs s).1 name ≡ done (pos 0, u))
      × (u.disk.block 0 ≡ new_dir s.stack name)
      × (u.disk.block 0 0 ≢ sfs_magic)
unfolding sfs_mkdir sfs_find_dir find_from make_dir sfs_alloc_block alloc_from enter_dir sfs_mkfs
mkdir_unmounted zero s name lt short = absurd (omega arith)
mkdir_unmounted (suc n) s name lt short =
    let sb = set_word zero_block 3 0 in
    let base = record (formatted s) { sb = sb } in
    let entered = write_to base sb 0 in
    let self = write_self entered.disk (new_dir s.stack name) 0 (omega arith) in
    (
      write_to entered (new_dir s.stack name) 0,
      rw (ltb_of_lt (length name) 508 (omega arith)),
      self,
      rw (self, new_dir_next s.stack name) (λ e. omega arith),
    )
