-- ===== src/Page/Entries.antt =====
-- What is read from the page tables after an entry has been set.
use eg_gs.Base.{ℕ, ◌≡◌, refl, true, ◌&&◌, some, update, arith, ◌==◌, if◌then◌else◌}
use eg_gs.Page.{
  Pages, page_of, dir_idx, table_idx, present, page_get, page_set, page_table_touch, flags_of,
}

module _ (page_stack : ℕ) (vmm_page_get : Pages → (vaddr : ℕ) → ℕ)
    (vmm_page_set : (vaddr value : ℕ) → Pages → Pages) where
  page_table_touch-present :
      (p : Pages) (vaddr flags : ℕ)
      → present (p.page_directory (dir_idx (page_of vaddr))) ≡ true
      → page_table_touch page_stack vmm_page_get vmm_page_set (page_of vaddr) flags p ≡ some p
  unfolding page_table_touch
  page_table_touch-present p vaddr flags there =
      let again : page_of (page_of vaddr) ≡ page_of vaddr = omega arith in
      let known : present (p.page_directory (dir_idx (page_of (page_of vaddr)))) ≡ true =
        rw again there in
      ground arith

  -- For an address whose table is present: `page_set` does not panic, and what `page_get` gives for
  -- an address afterwards is as before, but for the addresses whose table is present and whose index
  -- within a table is the same, of whatever table: for these it gives the new value, or 0 if that is
  -- not marked present. So pages that are 4 MB apart share an entry.
  pub page_get-page_set :
      (p : Pages) (vaddr value : ℕ)
      → present (p.page_directory (dir_idx (page_of vaddr))) ≡ true
      → (q : Pages) × (page_set page_stack vmm_page_get vmm_page_set vaddr value p ≡ some q)
        × ((a : ℕ)
            → page_get q a ≡ (
                if present (p.page_directory (dir_idx (page_of a)))
                  && table_idx (page_of vaddr) == table_idx (page_of a)
                then (if present value then value else 0)
                else page_get p a))
  unfolding page_set page_get
  page_get-page_set p vaddr value there = (
    record p { page_tables = update p.page_tables (table_idx (page_of vaddr)) value },
    rw (page_set, page_table_touch-present p vaddr (flags_of value) there) refl,
    λ a. ground arith,
  )
