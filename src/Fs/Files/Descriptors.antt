-- ===== src/Fs/Files/Descriptors.antt =====
-- The descriptor table of OS/hw3/fs.c: what opening and closing do to it.
use kw_home_work.Common.{
  ℕ, zero, suc, ◌+◌, ◌≡◌, ◌≢◌, refl, ap, ◌∙◌, Bool, true, false, Option, none, some, List, [], ◌∷◌,
  arith, get_elem?, set, get_elem?-set_self, get_elem?-set_ne, set-set,
}
use kw_home_work.Fs.{Mounted, FileDesc, FilePtr, File, free_fd, new_fd, file_of}
use kw_home_work.Fs.Files.{close_file}

-- Every descriptor below `k`, of a table whose first index is `i`, is in use.
abbrev pub AllUsed : List FileDesc → Type 0
AllUsed [] = Unit {0}
AllUsed (d ∷ ds) = (d.used ≡ true) × AllUsed ds

-- The index `k` is the first that is not in use.
abbrev pub IsFirstUnused : List FileDesc → ℕ → Type 0
IsFirstUnused [] k = ⊥
IsFirstUnused (d ∷ ds) zero = d.used ≡ false
IsFirstUnused (d ∷ ds) (suc k) = (d.used ≡ true) × IsFirstUnused ds k

-- What `free_fd` finds.
abbrev pub FirstUnused : List FileDesc → Option ℕ → Type 0
FirstUnused ds none = AllUsed ds
FirstUnused ds (some k) = IsFirstUnused ds k

abbrev shift : ℕ → Option ℕ → Option ℕ
shift i none = none
shift i (some k) = some (i + k)

free_fd_lem :
    (i : ℕ) (ds : List FileDesc) → (o : Option ℕ) × FirstUnused ds o × (free_fd i ds ≡ shift i o)
unfolding free_fd
free_fd_lem i [] = (none, tt, refl)
free_fd_lem i (d ∷ ds) = by_use d.used refl (free_fd_lem (i + 1) ds)
  where
    by_use :
        (b : Bool)
        → d.used ≡ b
        → (o : Option ℕ) × FirstUnused ds o × (free_fd (i + 1) ds ≡ shift (i + 1) o)
        → (o : Option ℕ) × FirstUnused (d ∷ ds) o × (free_fd i (d ∷ ds) ≡ shift i o)
    by_use false u r = (some 0, u, rw (u, free_fd) (ap some (omega arith)))
    by_use true u (none, all, e) = (none, (u, all), rw (u, free_fd) e)
    by_use true u (some k, first, e) =
        (some (suc k), (u, first), rw (u, free_fd) (e ∙ ap some (omega arith)))

shift_zero : (o : Option ℕ) → shift 0 o ≡ o
shift_zero none = refl
shift_zero (some k) = ap some (omega arith)

first_unused_elem :
    (ds : List FileDesc) (k : ℕ)
    → IsFirstUnused ds k
    → (d : FileDesc) × (get_elem? ds k ≡ some d) × (d.used ≡ false)
first_unused_elem [] k h = elim h [ ]
first_unused_elem (d ∷ ds) zero h = (d, refl, h)
first_unused_elem (d ∷ ds) (suc k) (u, h) = first_unused_elem ds k h

module _ {State : Type 0} where
  -- The descriptor `k` reads `n` from its start; the other descriptors and all else are as before. To
  -- close it succeeds, and makes it unused, where it cannot be read or closed again.
  pub record Opened (n k : ℕ) (fs fs' : Mounted State) : Type 0 where
    pub first : IsFirstUnused fs.file_desc k
    pub reads : file_of k fs' ≡ some (record { file_offset = 0; inode_num = n }, fs')
    pub others : (j : ℕ) → j ≢ k → get_elem? fs'.file_desc j ≡ get_elem? fs.file_desc j
    pub rest : record fs' { file_desc = fs.file_desc } ≡ fs
    pub after_close : Mounted State
    pub closes : close_file k fs' ≡ some (tt, after_close)
    pub unused : IsFirstUnused after_close.file_desc k
    pub unread : file_of k after_close ≡ none
    pub no_double : close_file k after_close ≡ none

  abbrev pub OpenResult : ℕ → Mounted State → Option (Option ℕ × Mounted State) → Type 0
  OpenResult n fs none = ⊥
  OpenResult n fs (some (none, fs')) = (fs' ≡ fs) × AllUsed fs.file_desc
  OpenResult n fs (some (some k, fs')) = Opened n k fs fs'

IsFirstUnused-set :
    (ds : List FileDesc) (k : ℕ) (v : FileDesc)
    → IsFirstUnused ds k
    → v.used ≡ false
    → IsFirstUnused (set ds k v) k
IsFirstUnused-set [] k v h u = h
IsFirstUnused-set (d ∷ ds) zero v h u = u
IsFirstUnused-set (d ∷ ds) (suc k) v (w, h) u = (w, IsFirstUnused-set ds k v h u)

module _ {State : Type 0} where
  -- `CreateFile` and `OpenFile` take the first descriptor that is not in use, whatever is in the table:
  -- it reads the inode from its start, and the other descriptors and all else stay as they were.
  -- `CloseFile` of it succeeds and makes it the first unused one again; it then can be neither read nor
  -- closed. The result is -1, and nothing changes, only if all are in use.
  pub new_fd-Opened : (n : ℕ) (fs : Mounted State) → OpenResult n fs (new_fd n fs)
  unfolding new_fd close_file file_of
  new_fd-Opened n fs =
      (let (o, first, e) = free_fd_lem 0 fs.file_desc in by_search (o, first, e ∙ shift_zero o))
    where
      by_search :
          (o : Option ℕ) × FirstUnused fs.file_desc o × (free_fd 0 fs.file_desc ≡ o)
          → OpenResult n fs (new_fd n fs)
      by_search (none, all, e) = rw (e, new_fd) (refl, all)
      by_search (some k, first, e) =
          let (d, at, u) = first_unused_elem fs.file_desc k first in
          let file : File = record { file_offset = 0; inode_num = n } in
          let new : FileDesc = record { used = true; open_file = FilePtr.opened file } in
          let shut : FileDesc = record { used = false; open_file = FilePtr.freed } in
          let ds = set fs.file_desc k new in
          let is_new = get_elem?-set_self fs.file_desc k d new at in
          let is_shut = get_elem?-set_self ds k new shut is_new in
          let opened : Opened n k fs (record fs { file_desc = ds }) = record {
            first = first;
            reads = rw (is_new, file_of) refl;
            others = λ j ne. get_elem?-set_ne fs.file_desc k j new ne;
            rest = refl;
            after_close = record fs { file_desc = set ds k shut };
            closes = rw (is_new, close_file) refl;
            unused =
                rw (set-set fs.file_desc k new shut)
                  (IsFirstUnused-set fs.file_desc k shut first refl);
            unread = rw (is_shut, file_of) refl;
            no_double = rw (is_shut, close_file) refl;
          } in
          rw (e, new_fd) opened
