-- ===== src/Sfs/Directory/Make.antt =====
-- `sfs_mkdir` appends a directory to the chain.
use ecse.Common.{
  ℕ, ◌<◌, ◌≡◌, ◌≢◌, refl, sym, ap, ◌∙◌, inl, inr, true, List, [], ◌∷◌, ◌++◌, Outcome, done,
  undefined, diverged, exited, arith, ◌==◌, if◌then◌else◌, All, length, Bool-cases, eqb_of_ne,
  eq_of_eqb, ne_of_eqb, ltb_of_lt,
}
use ecse.Common.Int.{pos, negsuc}
use ecse.Storage.{Block, Blkid}
use ecse.Storage.Laws.{write_self, write_other, length-write_inside}
use ecse.Sfs.Layout.{Name, first_dir, next_dir, inodes, dir_name_at, strcmp_eq}
use ecse.Sfs.State.{Fs, write_to}
use ecse.Sfs.Freemap.{sfs_alloc_block}
use ecse.Sfs.Freemap.Map.{used}
use ecse.Sfs.Freemap.Alloc.{
  disk_map, Allocated, AllocResult, sfs_alloc_block_lem, differ_of_used, beyond_super,
}
use ecse.Sfs.Directory.{sfs_find_dir, sfs_mkdir, make_dir, new_dir}
use ecse.Sfs.Directory.Chain.{Chain, Fresh, search, find_from-search, Chain-frame}
use ecse.Sfs.Directory.Tree.{
  HasDirs, Fresh-small, All-append, All-mono, All-Chain, fresh_of_free, Chain-alloc,
}
use ecse.Sfs.Directory.Enter.{
  new_dir_next, new_dir_name, inodes-new_dir, Entered, enter_dir-Entered,
}

-- What a successful `sfs_mkdir` leaves behind.
pub record Made (s : Fs) (ids : List Blkid) (name : Name) (n : Blkid) (u : Fs) : Type 0 where
  pub dirs : HasDirs u (ids ++ n ∷ [])
  pub free : used (disk_map s) n ≡ 0
  pub lowest : (j : Blkid) → j < n → used (disk_map s) j ≡ 1
  pub marked : (j : Blkid) → used (disk_map u) j ≡ (if j == n then 1 else used (disk_map s) j)
  pub named : strcmp_eq name (u.disk.block n) dir_name_at ≡ true
  pub empty : (i : ℕ) → i < 97 → inodes (u.disk.block n) i ≡ 0
  pub outside :
      (k : Blkid)
      → k < s.disk.length
      → k ≢ 0
      → k ≢ 1
      → k ≢ n
      → Fresh k ids
      → u.disk.block k ≡ s.disk.block k
  pub others :
      (k j : ℕ)
      → k < s.disk.length
      → k ≢ 0
      → k ≢ 1
      → k ≢ n
      → j ≢ 0
      → u.disk.block k j ≡ s.disk.block k j

module _ {s s1 t : Fs} {ids : List Blkid} {n : Blkid} (h : HasDirs s ids) (name : Name)
    (bytes : All (λ c. c < 256) name) (short : length name < 120) (small : n < 4096)
    (free : used (disk_map s) n ≡ 0) (lowest : (j : Blkid) → j < n → used (disk_map s) j ≡ 1)
    (a : Allocated s n s1) (e : Entered s1 ids n t) where
  final : Fs
  final = write_to t (new_dir t.stack name) n

  beyond : 1 < n
  beyond =
      let p = differ_of_used (disk_map s) n 0 free h.mounted.super_used in
      let q = differ_of_used (disk_map s) n 1 free h.mounted.map_used in omega arith

  final_sb : final.sb ≡ t.sb
  unfolding final
  final_sb = refl

  final_other : (k : Blkid) → k < t.disk.length → k ≢ n → final.disk.block k ≡ t.disk.block k
  unfolding final
  final_other k lt ne = write_other t.disk (new_dir t.stack name) n k (omega arith) lt ne

  final_self : final.disk.block n ≡ new_dir t.stack name
  unfolding final
  final_self = write_self t.disk (new_dir t.stack name) n (omega arith)

  final_length : final.disk.length ≡ t.disk.length
  unfolding final
  final_length =
      length-write_inside t.disk (new_dir t.stack name) n (omega arith)
        (omega (arith, e.length, a.inside))

  fresh : Fresh n ids
  fresh = fresh_of_free (disk_map s) n ids free h.taken

  final_map : disk_map final ≡ disk_map s1
  final_map =
      final_other 1 (omega (arith, e.length, a.mounted.long)) (omega (arith, beyond))
      ∙ e.outside 1 a.mounted.long (omega arith)
          (Fresh-small s.disk (first_dir s.sb) ids 1 (omega arith) h.chain)

  final_marked : (j : Blkid) → used (disk_map final) j ≡ (if j == n then 1 else used (disk_map s) j)
  final_marked j = rw final_map (a.marked j)

  final-Chain : Chain final.disk (first_dir t.sb) (ids ++ n ∷ [])
  final-Chain =
      Chain-frame t.disk final.disk (first_dir t.sb) (ids ++ n ∷ []) e.chain
        (omega (arith, final_length))
        (All-Chain (λ x. next_dir (final.disk.block x) ≡ next_dir (t.disk.block x)) t.disk
          (first_dir t.sb) (ids ++ n ∷ []) e.chain
          λ x low sm lt. elim (Bool-cases (x == n)) [
            | inl same ↦
                rw
                  (
                    eq_of_eqb x n same,
                    final_self,
                    e.outside n a.inside (omega (arith, beyond)) fresh,
                    a.cleared,
                  )
                  (new_dir_next t.stack name)
            | inr other ↦ ap (λ (w : Block). w 0) (final_other x lt (ne_of_eqb x n other))
          ])

  final-HasDirs : HasDirs final (ids ++ n ∷ [])
  final-HasDirs = record {
    mounted = record {
      one_map = rw final_sb (e.one_map ∙ a.mounted.one_map);
      long = omega (arith, final_length, e.length, a.mounted.long);
      words = rw final_map a.mounted.words;
      super_used = rw final_map a.mounted.super_used;
      map_used = rw final_map a.mounted.map_used;
    };
    synced = rw final_sb (
        final_other 0 (omega (arith, e.length, a.mounted.long)) (omega (arith, beyond)) ∙ e.synced);
    chain = rw final_sb final-Chain;
    taken =
        All-append (λ x. used (disk_map final) x ≡ 1) ids n
          (All-mono (λ x. used (disk_map s) x ≡ 1) (λ x. used (disk_map final) x ≡ 1) ids
            (λ x p. ground (arith, final_marked x)) h.taken)
          (ground (arith, final_marked n));
  }

  final-Made : Made s ids name n final
  final-Made = record {
    dirs = final-HasDirs;
    free = free;
    lowest = lowest;
    marked = final_marked;
    named = rw final_self (new_dir_name t.stack name bytes short);
    empty = λ i lt. rw final_self (inodes-new_dir t.stack name i lt);
    outside = λ k lt nz no nn f.
        final_other k (omega (arith, e.length, a.long)) nn
        ∙ e.outside k (omega (arith, a.long)) nz f
        ∙ a.others k lt nn no;
    others = λ k j lt nz no nn nj.
        ap (λ (w : Block). w j) (final_other k (omega (arith, e.length, a.long)) nn)
        ∙ e.words k j (omega (arith, a.long)) nz nj
        ∙ ap (λ (w : Block). w j) (a.others k lt nn no);
  }

module _ (rounds : ℕ) (s : Fs) (ids : List Blkid) (h : HasDirs s ids) (enough : length ids < rounds)
    (name : Name) where
  -- Where the directories are a well-formed chain and there are more rounds than directories,
  -- `sfs_find_dir` ends and returns the first directory of the list with the name, or 0.
  pub sfs_find_dir-search : sfs_find_dir rounds s name ≡ done (search s.disk name ids)
  unfolding sfs_find_dir
  sfs_find_dir-search =
      find_from-search rounds s.disk s.stack name (first_dir s.sb) ids h.chain enough

  -- Where the directories are a well-formed chain and there are more rounds than directories,
  -- `sfs_mkdir` of a name that a directory has returns -1 and changes nothing.
  pub sfs_mkdir_taken : search s.disk name ids ≢ 0 → sfs_mkdir rounds s name ≡ done (negsuc 0, s)
  unfolding sfs_mkdir
  sfs_mkdir_taken ne = rw (sfs_find_dir-search, eqb_of_ne _ 0 ne)

  make_dir-Made :
      (r : Outcome (Blkid × Fs))
      → sfs_alloc_block s ≡ r
      → AllocResult s r
      → (k : Blkid) → k < 4096
      → used (disk_map s) k ≡ 0
      → All (λ c. c < 256) name
      → length name < 120
      → (n : Blkid) × (u : Fs) × (make_dir rounds s name ≡ done (pos 0, u)) × Made s ids name n u
  unfolding make_dir final
  make_dir-Made (done (n, s1)) eq (small, free, lowest, a) k lt spare bytes short =
      let low = beyond_super h.mounted n small free in
      let nz : ◌≢◌ {A = ℕ} 0 n = omega arith in
      let synced =
        a.others 0 (omega (arith, h.mounted.long)) nz (omega arith) ∙ h.synced ∙ sym a.sb in
      let chain = Chain-alloc s s1 n (first_dir s.sb) ids free a h.chain h.taken in
      let (t, e, ent) =
        enter_dir-Entered s1 n low small a.inside (rw a.cleared refl) synced rounds ids
          (rw a.sb chain) (fresh_of_free (disk_map s) n ids free h.taken) enough in
      (
        n,
        write_to t (new_dir t.stack name) n,
        rw (eq, e, ltb_of_lt (length name) 508 (omega arith)),
        final-Made h name bytes short small free lowest a ent,
      )
  make_dir-Made undefined eq full k lt spare bytes short = absurd (omega (arith, full k lt))
  make_dir-Made diverged eq res k lt spare bytes short = absurd res
  make_dir-Made exited eq res k lt spare bytes short = absurd res

  -- Where the directories are a well-formed chain, there are more rounds than directories and a block
  -- is free, `sfs_mkdir` of a new name of at most 119 bytes succeeds. The
  -- directory takes the lowest free block and is appended to the chain; it has the name and no file;
  -- the other directories keep their names and files, and every other block its content.
  pub sfs_mkdir-Made :
      search s.disk name ids ≡ 0
      → All (λ c. c < 256) name
      → length name < 120
      → (k : Blkid) → k < 4096
      → used (disk_map s) k ≡ 0
      → (n : Blkid) × (u : Fs) × (sfs_mkdir rounds s name ≡ done (pos 0, u)) × Made s ids name n u
  unfolding sfs_mkdir
  sfs_mkdir-Made absent bytes short k lt spare =
      let (n, u, e, m) =
        make_dir-Made (sfs_alloc_block s) refl (sfs_alloc_block_lem s h.mounted) k lt spare bytes
          short in
      (n, u, rw (sfs_find_dir-search, absent) e, m)
