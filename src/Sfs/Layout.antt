-- ===== src/Sfs/Layout.antt =====
-- The structs of PA3/a2/fs.h as views of a block. Each struct fills a block exactly, so a cast of a
-- buffer to a struct is the buffer itself, and a field is a word or a run of bytes of it.
pub mod Strings
use ecse.Common.{
  ℕ, zero, suc, ◌+◌, ◌*◌, ◌/◌, ◌%◌, Bool, ◌&&◌, List, [], ◌∷◌, ltb, leb, ◌==◌, if◌then◌else◌,
}
use ecse.Storage.{Block, Blkid, set_word}

abbrev pub sfs_magic : ℕ
sfs_magic = 0xaabbccdd

abbrev pub sfs_db_ninodes : ℕ
sfs_db_ninodes = 97

abbrev pub sfs_frame_count : ℕ
sfs_frame_count = 127

abbrev pub sfs_max_opened_files : ℕ
sfs_max_opened_files = 32

-- `sfs_superblock_t`
abbrev pub nblocks : Block → ℕ
nblocks b = b 1

abbrev pub nfreemap_blocks : Block → ℕ
nfreemap_blocks b = b 2

abbrev pub first_dir : Block → Blkid
first_dir b = b 3

-- `sfs_dirblock_t`: the name fills the bytes 4 to 123.
abbrev pub next_dir : Block → Blkid
next_dir b = b 0

abbrev pub dir_name_at : ℕ
dir_name_at = 4

abbrev pub inodes_at : ℕ
inodes_at = 31

abbrev pub inodes : Block → ℕ → Blkid
inodes b i = b (inodes_at + i)

-- `sfs_inode_t`: the name fills the bytes 8 to 511.
abbrev pub file_size : Block → ℕ
file_size b = b 0

abbrev pub first_frame : Block → Blkid
first_frame b = b 1

abbrev pub file_name_at : ℕ
file_name_at = 8

-- `sfs_inode_frame_t`
abbrev pub next_frame : Block → Blkid
next_frame b = b 0

abbrev pub content : Block → ℕ → Blkid
content b i = b (1 + i)

-- The bytes of a little-endian word.
unfoldable pub byte_of : ℕ → ℕ → ℕ
byte_of w zero = w % 256
byte_of w (suc zero) = w / 256 % 256
byte_of w (suc (suc zero)) = w / 65536 % 256
byte_of w (suc (suc (suc r))) = w / 16777216 % 256

unfoldable pub set_byte_of : ℕ → ℕ → ℕ → ℕ
set_byte_of w zero v = w / 256 * 256 + v
set_byte_of w (suc zero) v = w / 65536 * 65536 + v * 256 + w % 256
set_byte_of w (suc (suc zero)) v = w / 16777216 * 16777216 + v * 65536 + w % 65536
set_byte_of w (suc (suc (suc r))) v = v * 16777216 + w % 16777216

-- The byte of a block at an offset.
unfoldable pub byte : Block → ℕ → ℕ
unfolding byte_of
byte b o = byte_of (b (o / 4)) (o % 4)

unfoldable pub set_byte : Block → ℕ → ℕ → Block
unfolding set_byte_of
set_byte b o v = set_word b (o / 4) (set_byte_of (b (o / 4)) (o % 4) v)

-- A C string without its NUL.
abbrev pub Name : Type 0
Name = List ℕ

-- `strcpy` into the block at an offset: the bytes of the name, then a NUL.
unfoldable pub strcpy : Block → ℕ → Name → Block
unfolding set_byte
strcpy b o [] = set_byte b o 0
strcpy b o (c ∷ cs) = strcpy (set_byte b o c) (o + 1) cs

-- `strcmp(name, …) == 0` against the string at an offset of the block: it stops at the first
-- difference, so it reads no byte behind the length of `name`.
unfoldable pub strcmp_eq : Name → Block → ℕ → Bool
unfolding byte
strcmp_eq [] b o = byte b o == 0
strcmp_eq (c ∷ cs) b o = (byte b o == c) && strcmp_eq cs b (o + 1)

-- Words `k` to `k + n - 1` set to zero, as `memset` does.
abbrev pub clear_words : Block → ℕ → ℕ → Block
clear_words b k n j = if leb k j && ltb j (k + n) then 0 else b j
