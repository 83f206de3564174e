-- ===== src/Sfs/Table/Refines.antt =====
-- The file system answers every list of commands on directories as the list of names does.
use ecse.Common.{
  ℕ, ◌+◌, ◌<◌, ◌≤◌, ◌≡◌, ◌≢◌, refl, inl, inr, true, List, [], ◌∷◌, ◌++◌, done, arith, All, length,
  length-append, Bool-cases,
}
use ecse.Common.Texts.{Text, IsText}
use ecse.Storage.{Block, Blkid, Storage}
use ecse.Sfs.Layout.{first_dir}
use ecse.Sfs.State.{Fs}
use ecse.Sfs.Freemap.Map.{used}
use ecse.Sfs.Freemap.Alloc.{disk_map}
use ecse.Sfs.Directory.Chain.{Chain, Fresh, search}
use ecse.Sfs.Directory.Tree.{HasDirs, All-Chain, fresh_of_free}
use ecse.Sfs.Directory.Unlink.{erase, Mem}
use ecse.Sfs.Directory.Detach.{search-Mem}
use ecse.Sfs.Directory.Make.{Made, sfs_mkdir_taken, sfs_mkdir-Made}
use ecse.Sfs.Directory.Remove.{
  Removed, All-fresh, All-erase, sfs_lsdir-length, sfs_rmdir_absent, sfs_rmdir-Removed,
}
use ecse.Sfs.Format.{sfs_mkfs, sfs_print_info}
use ecse.Sfs.Format.Mount.{mkfs_marks, mkfs-HasDirs}
use ecse.Sfs.Table.{
  Command, mkdir, rmdir, lsdir, IsName, IsCommand, holds, without, answer, answers, perform,
  perform_all,
}
use ecse.Sfs.Table.Names.{
  Named, length-Named, Named-frame, Named-append, strcmp_eq_unique, search_absent, search_held,
}
use ecse.Sfs.Freemap.Space.{
  used_count, spare_block, used_count-marked, used_count-cleared, used_count-two,
}

-- The file system stores these names as its directories, and nothing else.
pub record Stores (s : Fs) (names : List Text) : Type 0 where
  pub ids : List Blkid
  pub dirs : HasDirs s ids
  pub named : Named s.disk ids names
  pub space : used_count (disk_map s) 4096 ≡ 2 + length names

taken_of_mem :
    (m : Block) (x : Blkid) (ids : List Blkid)
    → Mem x ids
    → All (λ y. used m y ≡ 1) ids
    → used m x ≡ 1
taken_of_mem m x [] i a = absurd i
taken_of_mem m x (y ∷ ys) (inl e) a = rw e a.0
taken_of_mem m x (y ∷ ys) (inr i) a = taken_of_mem m x ys i a.1

small_of_mem : (d : Storage) (b x : Blkid) (ids : List Blkid) → Chain d b ids → Mem x ids → x < 4096
small_of_mem d b x [] c i = absurd i
small_of_mem d b x (y ∷ ys) c (inl e) = omega (arith, c.2)
small_of_mem d b x (y ∷ ys) c (inr i) = small_of_mem d _ x ys c.5 i

mem_last : (ids : List Blkid) (x : Blkid) → Mem x (ids ++ x ∷ [])
mem_last [] x = inl refl
mem_last (y ∷ ys) x = inr (mem_last ys x)

length-without :
    (name : Text) (names : List Text)
    → holds name names ≡ true
    → length (without name names) + 1 ≡ length names
unfolding holds without
length-without name [] e = absurd (cc)
length-without name (n ∷ ns) e = ground (arith, length-without name ns)

bytes_of_text : (name : Text) → IsText name → All (λ c. c < 256) name
bytes_of_text [] t = tt
bytes_of_text (c ∷ cs) t = (t.0.1, bytes_of_text cs t.1)

-- The directories keep all but their links where every data block other than `n` does.
kept_links :
    (d g : Storage) (b n : Blkid) (ids : List Blkid)
    → Chain d b ids
    → Fresh n ids
    → ((k j : ℕ) → k < d.length → k ≢ 0 → k ≢ 1 → k ≢ n → j ≢ 0 → g.block k j ≡ d.block k j)
    → All (λ x. (j : ℕ) → j ≢ 0 → g.block x j ≡ d.block x j) ids
kept_links d g b n ids c f same =
    All-fresh (λ x. x ≢ n → (j : ℕ) → j ≢ 0 → g.block x j ≡ d.block x j)
      (λ x. (j : ℕ) → j ≢ 0 → g.block x j ≡ d.block x j) n ids f (λ x ne p. p ne)
      (All-Chain (λ x. x ≢ n → (j : ℕ) → j ≢ 0 → g.block x j ≡ d.block x j) d b ids c
        λ x low small lt ne j nz. same x j lt (λ e. omega arith) (λ e. omega arith) ne nz)

module _ (rounds : ℕ) (s : Fs) (names : List Text) (h : Stores s names)
    (enough : length names < rounds) where
  same_length : length h.ids ≡ length names
  same_length = length-Named s.disk h.ids names h.named

  rounds_enough : length h.ids < rounds
  rounds_enough = omega (arith, same_length)

  Made-Stores :
      (name : Text) (n : Blkid) (u : Fs)
      → IsName name
      → Made s h.ids name n u
      → Stores u (names ++ name ∷ [])
  Made-Stores name n u t made = record {
    ids = h.ids ++ n ∷ [];
    dirs = made.dirs;
    named =
        Named-append u.disk h.ids names n name
          (Named-frame s.disk u.disk h.ids names h.named (
            kept_links s.disk u.disk (first_dir s.sb) n h.ids h.dirs.chain
              (fresh_of_free (disk_map s) n h.ids made.free h.dirs.taken)
              (λ k j lt nz no nn nj. made.others k j lt nz no nn nj)))
          (λ c tc. strcmp_eq_unique name c (u.disk.block n) 4 t.0 tc made.named);
    space = omega (
      arith,
      h.space,
      used_count-marked (disk_map s) (disk_map u) n made.marked made.free 4096 (
          small_of_mem u.disk (first_dir u.sb) n (h.ids ++ n ∷ []) made.dirs.chain
            (mem_last h.ids n)),
      length-append names (name ∷ []),
    );
  }

  Removed-Stores :
      (name : Text) (u : Fs)
      → IsName name
      → holds name names ≡ true
      → Removed s h.ids (search s.disk name h.ids) u
      → Stores u (without name names)
  Removed-Stores name u t held gone =
      let x = search s.disk name h.ids in
      let (found, named) =
        search_held s.disk name t.0 (first_dir s.sb) h.ids names h.dirs.chain h.named held in
      let inside = search-Mem s.disk name h.ids found in
      let taken = taken_of_mem (disk_map s) x h.ids inside h.dirs.taken in
      let small = small_of_mem s.disk (first_dir s.sb) x h.ids h.dirs.chain inside in
      record {
        ids = erase x h.ids;
        dirs = gone.dirs;
        named = Named-frame s.disk u.disk (erase x h.ids) (without name names) named (
            All-erase (λ y. (j : ℕ) → j ≢ 0 → u.disk.block y j ≡ s.disk.block y j) x h.ids
              (All-Chain (λ y. (j : ℕ) → j ≢ 0 → u.disk.block y j ≡ s.disk.block y j) s.disk
                (first_dir s.sb) h.ids h.dirs.chain
                λ y low sm lt j nz. gone.others y j lt (λ e. omega arith) (λ e. omega arith) nz));
        space = omega (
          arith,
          h.space,
          used_count-cleared (disk_map s) (disk_map u) x gone.marked taken 4096 small,
          length-without name names held,
        );
      }

  -- One command is answered as the list of names says, and leads to the list that it says.
  perform-answer :
      (c : Command)
      → IsCommand c
      → length names < 4094
      → (u : Fs) × (perform rounds s c ≡ done ((answer names c).0, u)) × Stores u (answer names c).1
  unfolding perform answer
  perform-answer (mkdir name) t room = elim (Bool-cases (holds name names)) [
    | inl held ↦
        let (found, rest) =
          search_held s.disk name t.0 (first_dir s.sb) h.ids names h.dirs.chain h.named held in
        rw held (s, sfs_mkdir_taken rounds s h.ids h.dirs rounds_enough name found, h)
    | inr new ↦
        let (k, small, spare) = spare_block (disk_map s) 4096 (omega (arith, h.space)) in
        let (n, u, run, made) =
          sfs_mkdir-Made rounds s h.ids h.dirs rounds_enough name
            (search_absent s.disk name t.0 h.ids names h.named new) (bytes_of_text name t.0) t.1 k
            small spare in
        rw new (u, run, Made-Stores name n u t made)
  ]
  perform-answer (rmdir name) t room = elim (Bool-cases (holds name names)) [
    | inl held ↦
        let (found, rest) =
          search_held s.disk name t.0 (first_dir s.sb) h.ids names h.dirs.chain h.named held in
        let (u, run, gone) = sfs_rmdir-Removed rounds s h.ids h.dirs rounds_enough name found in
        rw held (u, run, Removed-Stores name u t held gone)
    | inr absent ↦ rw absent (
      s,
      sfs_rmdir_absent rounds s h.ids h.dirs rounds_enough name
          (search_absent s.disk name t.0 h.ids names h.named absent),
      h,
    )
  ]
  perform-answer lsdir t room =
      (s, rw (sfs_lsdir-length rounds s h.ids h.dirs rounds_enough, same_length) refl, h)

length-answer : (names : List Text) (c : Command) → length (answer names c).1 ≤ length names + 1
unfolding answer
length-answer names (mkdir name) = ground (arith, length-append names (name ∷ []))
length-answer names (rmdir name) = elim (Bool-cases (holds name names)) [
  | inl held ↦ rw held (omega (arith, length-without name names held))
  | inr absent ↦ rw absent (omega arith)
]
length-answer names lsdir = omega arith

perform_all-answers :
    (rounds : ℕ) (cs : List Command) (s : Fs) (names : List Text)
    → Stores s names
    → All IsCommand cs
    → length names + length cs ≤ 4094
    → 4094 < rounds
    → (u : Fs) × (perform_all rounds s cs ≡ done ((answers names cs).0, u))
      × Stores u (answers names cs).1
unfolding perform_all answers
perform_all-answers rounds [] s names h t room enough = (s, refl, h)
perform_all-answers rounds (c ∷ cs) s names h t room enough =
    let (u, run, stores) = perform-answer rounds s names h (omega arith) c t.0 (omega arith) in
    let (v, rest, last) =
      perform_all-answers rounds cs u (answer names c).1 stores t.1
        (omega (arith, length-answer names c)) enough in
    (v, rw (run, rest) refl, last)

-- A file system that is formatted and mounted stores no name.
pub mkfs-Stores : (s : Fs) → Stores (sfs_print_info (sfs_mkfs s).1).1 []
unfolding sfs_print_info
mkfs-Stores s = record {
  ids = [];
  dirs = mkfs-HasDirs s;
  named = tt;
  space = omega (arith, used_count-two (disk_map (sfs_mkfs s).1) (mkfs_marks s) 4096);
}

-- From any state, once the file system is formatted and mounted, every list of at most 4094 commands
-- to make, remove and count directories, with names of at most 119 bytes none of them NUL, is
-- answered exactly as a list of names answers it: making a name that is there and removing one that
-- is not are refused with -1, a new name goes to the end, the first of a name is removed, and the
-- count is the length of the list. The file system stores the names of that list at the end.
pub perform_all-answers_mkfs :
    (s : Fs) (cs : List Command)
    → All IsCommand cs
    → length cs ≤ 4094
    → (u : Fs) × (perform_all 4095 (sfs_print_info (sfs_mkfs s).1).1 cs
        ≡ done ((answers [] cs).0, u))
      × Stores u (answers [] cs).1
perform_all-answers_mkfs s cs t room =
    perform_all-answers 4095 cs _ [] (mkfs-Stores s) t (omega arith) (omega arith)
