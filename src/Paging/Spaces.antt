-- ===== src/Paging/Spaces.antt =====
-- Address spaces in hexahedron/arch/i386/mem.c: the counts of references to the frames, and the clone of
-- a directory with its tables, in which the two spaces share the pages of the user. The array of the
-- counts is read and written at every frame, also behind its end.
use hexahedron.Base.{
  ℕ, zero, suc, ◌+◌, ◌-◌, ◌/◌, true, false, not, Option, none, some, ◌==◌, if◌then◌else◌,
}
use hexahedron.Base.Outcome.{done, panic, ◌>>=◌, ◌>>◌, pure}
use hexahedron.Pmm
use hexahedron.Paging.{
  PagePtr, Vmm, VmmOp, with_pmm, read_page, write_page, update, unmap_phys, clear_table, directory,
  set_frame, get_frame, page_size,
}
use hexahedron.Paging.Tables.{Remap}

abbrev pub set_references : ℕ → ℕ → Vmm → Vmm
set_references idx n s = record s { references = λ i. if i == idx then n else s.references i }

-- `mem_incrementPageReference`
unfoldable pub increment_page_reference : Option PagePtr → VmmOp ℕ
increment_page_reference none s = done 0 s
increment_page_reference (some p) s =
    let page = read_page p s in
    let count = s.references page.address in
    if not page.present
    then done 0 s
    else if count == 255
    then done 0 s
    else done (count + 1) (set_references page.address (count + 1) s)

-- `mem_decrementPageReference`
unfoldable pub decrement_page_reference : Option PagePtr → VmmOp ℕ
decrement_page_reference none s = done 0 s
decrement_page_reference (some p) s =
    let page = read_page p s in
    let count = s.references page.address in
    if not page.present
    then done 0 s
    else if count == 0
    then panic s
    else done (count - 1) (set_references page.address (count - 1) s)

-- `memcpy` of a frame
abbrev pub copy_frame : ℕ → ℕ → Vmm → Vmm
copy_frame dest src s = record s {
  memory = λ f i. if f == dest then s.memory src i else s.memory f i;
}

-- `mem_copyUserPage` for a page that can be written to
unfoldable pub share_page : PagePtr → PagePtr → VmmOp (Unit {0})
share_page src dest s =
    let page = read_page src s in
    if not (s.references page.address == 0)
    then panic s
    else (do
      update (set_references page.address 2)
      update (λ t. write_page src (record (read_page src t) { rw_bit = false; cow = true }) t)
      update (λ t. write_page dest (read_page src t) t))
        s

-- The loops of `mem_clone`, with the rounds left.
unfoldable pub for_entries : (ℕ → VmmOp (Unit {0})) → ℕ → ℕ → VmmOp (Unit {0})
for_entries body zero i s = done tt s
for_entries body (suc n) i s = (body i >> for_entries body n (i + 1)) s

module _ (remap : Remap) where
  -- `mem_createVAS`
  unfoldable pub create_vas : VmmOp ℕ
  create_vas = do
    block ← with_pmm Pmm.allocate_block
    _ ← remap block page_size
    update (clear_table (block / page_size))
    pure (block / page_size)

  -- `mem_copyUserPage` where the frame has all the references that can be counted
  unfoldable pub copy_page : PagePtr → PagePtr → VmmOp (Unit {0})
  unfolding unmap_phys
  copy_page src dest s =
      let frame = (read_page src s).address in
      (do
        src_frame ← remap (get_frame (read_page src s)) page_size
        block ← with_pmm Pmm.allocate_block
        dest_frame ← remap block page_size
        update (copy_frame (block / page_size) frame)
        update (λ t. write_page dest (record (set_frame (read_page src t) block) { cow = false }) t)
        unmap_phys dest_frame page_size
        unmap_phys src_frame page_size)
        s

  -- `mem_copyUserPage`
  unfoldable pub copy_user_page : PagePtr → PagePtr → VmmOp (Unit {0})
  unfolding share_page increment_page_reference copy_page
  copy_user_page src dest s =
      if (read_page src s).rw_bit
      then share_page src dest s
      else (increment_page_reference (some src) >>= λ n t.
            if n == 0 then copy_page src dest t else done tt (write_page dest (read_page src t) t))
          s

  -- One round of the inner loop of `mem_clone`: entry `pte` of two tables.
  unfoldable pub clone_page : ℕ → ℕ → ℕ → VmmOp (Unit {0})
  unfolding copy_user_page
  clone_page src_pt dest_pt pte s =
      let src : PagePtr = record { table = src_pt; index = pte } in
      let dest : PagePtr = record { table = dest_pt; index = pte } in
      if not (read_page src s).present
      then done tt s
      else if (read_page src s).usermode
      then copy_user_page src dest s
      else done tt (write_page dest (read_page src s) s)

  -- The table of entry `pde` of the directory `src` is cloned into `dest`.
  unfoldable pub clone_table : ℕ → ℕ → ℕ → VmmOp (Unit {0})
  unfolding for_entries clone_page unmap_phys
  clone_table src dest pde s =
      let src_pde : PagePtr = record { table = src; index = pde } in
      let dest_pde : PagePtr = record { table = dest; index = pde } in
      if not (read_page src_pde s).present
      then done tt s
      else (do
        block ← with_pmm Pmm.allocate_block
        dest_pt ← remap block page_size
        update (clear_table (block / page_size))
        update (λ t. write_page dest_pde (read_page src_pde t) t)
        update (λ t. write_page dest_pde (set_frame (read_page dest_pde t) block) t)
        (λ t.
            let frame = (read_page src_pde t).address in
            (do
              src_pt ← remap (get_frame (read_page src_pde t)) page_size
              for_entries (clone_page frame (block / page_size)) 1024 0
              unmap_phys src_pt page_size
              unmap_phys dest_pt page_size)
              t))
          s

  -- `mem_clone`
  unfoldable pub clone : Option ℕ → VmmOp ℕ
  unfolding create_vas for_entries clone_table
  clone dir s =
      let src = directory dir s in
      (do dest ← create_vas; for_entries (clone_table src dest) 1024 0; pure dest) s
