-- ===== src/Fs/Files/Opening.antt =====
-- `OpenFile` of OS/hw3/fs.c: the path, the search of the last directory, and the descriptor.
use mathlib.Core.Path.{subst}
use kw_home_work.Common.{
  ℕ, ◌≡◌, ◌⊎◌, inl, inr, refl, ap, sym, true, false, Option, none, some, List,
}
use kw_home_work.Store.{BlockStore}
use kw_home_work.Inode.{Inode}
use kw_home_work.Fs.{◌>>=◌, ptrs, Mounted, new_fd}
use kw_home_work.Fs.Entry.{entry_inode, is_named}
use kw_home_work.Fs.Walk.{Hit, DirPos}
use kw_home_work.Fs.Walk.Search.{Same, Missing, Reaches, reached, missed}
use kw_home_work.Fs.Walk.Paths.{IsDir, Position, get_dir_pos_from, scan_inode-Searched}
use kw_home_work.Fs.Files.{open_file}
use kw_home_work.Fs.Files.Descriptors.{OpenResult, new_fd-Opened}

module _ (store : BlockStore) where
  open store use {State, IsValid}

  -- What the path of a file leads to: the file's entry, or nothing.
  abbrev pub LeadsTo : State → DirPos → Option ℕ → Type 0
  LeadsTo s pos none =
      (pos.found ≡ false)
      ⊎ ((pos.found ≡ true)
          × ((i : Inode) × IsDir store pos.inode_no i s
              × Missing store (is_named pos.token) (ptrs i) s))
  LeadsTo s pos (some n) =
      (pos.found ≡ true)
      × ((i : Inode) × IsDir store pos.inode_no i s
          × ((h : Hit) × ((m : ℕ) × Reaches store (is_named pos.token) (ptrs i) m s h)
              × (entry_inode h.entries h.idx ≡ n)))

  -- What opening does then.
  abbrev pub opening : Option ℕ → Mounted State → Option (Option ℕ × Mounted State)
  opening none fs = some (none, fs)
  opening (some n) fs = new_fd n fs

  -- And what its result is: -1 where there is no entry, or no descriptor is unused; otherwise the first
  -- unused one, which reads the inode.
  abbrev pub Opens : Option ℕ → Mounted State → Option (Option ℕ × Mounted State) → Type 0
  Opens none fs r = r ≡ some (none, fs)
  Opens (some n) fs r = OpenResult n fs r

  opening-Opens : (target : Option ℕ) (fs : Mounted State) → Opens target fs (opening target fs)
  opening-Opens none fs = refl
  opening-Opens (some n) fs = new_fd-Opened n fs

  open_run :
      (junk name : List ℕ) (pos : DirPos) (target : Option ℕ) (fs : Mounted State)
      → IsValid fs.store
      → Position store fs.store junk name pos
      → LeadsTo fs.store pos target
      → (s' : State) × (open_file store junk name fs ≡ opening target (record fs { store = s' }))
        × IsValid s'
        × Same store fs.store s'
  unfolding open_file
  open_run junk name pos none fs v p (inl missing) =
      let (s1, ran, v1, k1) =
        get_dir_pos_from store junk name pos fs.store fs.store v (λ x y e. e) p in
      (s1, rw (ran, ◌>>=◌, missing, open_file) refl, v1, k1)
  open_run junk name pos none fs v p (inr (is_there, (i, dir, none_there))) =
      let (s1, ran, v1, k1) =
        get_dir_pos_from store junk name pos fs.store fs.store v (λ x y e. e) p in
      let found =
        scan_inode-Searched store (is_named pos.token) pos.inode_no i fs.store s1 dir v1 k1 in
      let is_none =
        missed store (is_named pos.token) fs.store (ptrs i) found.result found.right none_there in
      (
        found.after,
        rw (ran, ◌>>=◌, is_there, found.ran, is_none, open_file) refl,
        found.valid,
        found.same,
      )
  open_run junk name pos (some n) fs v p (is_there, (i, dir, (h, r, is_n))) =
      let (s1, ran, v1, k1) =
        get_dir_pos_from store junk name pos fs.store fs.store v (λ x y e. e) p in
      let found =
        scan_inode-Searched store (is_named pos.token) pos.inode_no i fs.store s1 dir v1 k1 in
      let (h', is_hit, same_entries, same_idx, _) =
        reached store (is_named pos.token) fs.store (ptrs i) found.result found.right h r in
      let next : entry_inode h'.entries h'.idx ≡ n = rw (sym same_entries, sym same_idx) is_n in
      (
        found.after,
        rw (ran, ◌>>=◌, is_there, found.ran, is_hit, open_file)
            (ap (λ x. new_fd x (record fs { store = found.after })) next),
        found.valid,
        found.same,
      )

  -- `OpenFile` on a valid store, of a path with a name, where what the path goes through, as far as it
  -- exists, are stored directories: it runs without a fault and changes no readable block. If the path
  -- leads to an entry, the result is the first unused descriptor, which then reads the inode in the
  -- entry from its start while the others do not change, or -1 if all are in use. If a directory of
  -- the path is missing, or the last has no such entry, the result is -1 and none is opened.
  pub open_file-opening :
      (junk name : List ℕ) (pos : DirPos) (target : Option ℕ) (fs : Mounted State)
      → IsValid fs.store
      → Position store fs.store junk name pos
      → LeadsTo fs.store pos target
      → (s' : State) × (open_file store junk name fs ≡ opening target (record fs { store = s' }))
        × IsValid s'
        × Same store fs.store s'
        × Opens target (record fs { store = s' }) (open_file store junk name fs)
  open_file-opening junk name pos target fs v p leads =
      let (s', run, v', same) = open_run junk name pos target fs v p leads in
      let fs1 : Mounted State = record fs { store = s' } in
      (s', run, v', same, subst (Opens target fs1) (sym run) (opening-Opens target fs1))
