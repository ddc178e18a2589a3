-- ===== src/Page.antt =====
-- page.c: the entries of the page tables, and the stack of free physical pages. The file is not part
-- of the kernel that is built. What it calls and no file declares (`vmm_page_get`, `vmm_page_set`,
-- `vmm_page_val` and `PMM_PAGE_STACK`) are parameters.
pub mod Entries
pub mod Stack
use eg_gs.Base.{
  ℕ, ◌+◌, ◌-◌, ◌*◌, ◌/◌, ◌%◌, ◌^◌, Bool, true, false, not, Option, none, some, Ram, update, bit_or,
  ltb, leb, ◌==◌, if◌then◌else◌,
}

abbrev pub page_size : ℕ
page_size = 0x1000

-- `& PAGE_MASK` and `& PAGE_FLAG_MASK`.
abbrev pub page_of : ℕ → ℕ
page_of a = a - a % 2 ^ 12

abbrev pub flags_of : ℕ → ℕ
flags_of a = a % 2 ^ 12

-- `dir_idx` and `table_idx`, of the address of a page.
abbrev pub dir_idx : ℕ → ℕ
dir_idx vaddr = vaddr / 2 ^ 22

abbrev pub table_idx : ℕ → ℕ
table_idx vaddr = vaddr / 2 ^ 12 % 2 ^ 10

abbrev pub present : ℕ → Bool
present entry = entry % 2 == 1

-- The words of `page_directory` and of `page_tables`, of which `table_idx` names the first 1024; the
-- words of the stack of free pages, by address; and the variables. `pmm_running` and `pmm_pos` are
-- declared nowhere.
pub record Pages : Type 0 where
  pub page_directory : Ram ℕ
  pub page_tables : Ram ℕ
  pub stack : Ram ℕ
  pub page_stack_max : ℕ
  pub page_stack_ptr : ℕ
  pub running : Bool
  pub pos : ℕ

unfoldable pub page_get : Pages → (vaddr : ℕ) → ℕ
page_get p vaddr =
    let vaddr = page_of vaddr in
    let entry = p.page_tables (table_idx vaddr) in
    if not (present (p.page_directory (dir_idx vaddr)))
    then 0
    else if present entry
    then entry
    else 0

module _ (page_stack : ℕ) (vmm_page_get : Pages → (vaddr : ℕ) → ℕ)
    (vmm_page_set : (vaddr value : ℕ) → Pages → Pages) where
  -- The page handed out, and the state; `none` if it panics.
  unfoldable pub pop_free_physical_page : Pages → Option (ℕ × Pages)
  pop_free_physical_page p =
      let ptr = (p.page_stack_ptr + 2 ^ 32 - 4) % 2 ^ 32 in
      let max = (p.page_stack_max + 2 ^ 32 - page_size) % 2 ^ 32 in
      let q = record p { page_stack_ptr = ptr } in
      let r = record q { page_stack_max = max } in
      let ret = page_of (vmm_page_get r ((max + 2 ^ 32 - page_size) % 2 ^ 32)) in
      if not p.running
      then some (p.pos, record p { pos = (p.pos + page_size) % 2 ^ 32 })
      else if p.page_stack_ptr == page_stack
      then none
      else if leb ptr max
      then some (ret, vmm_page_set ret 0 r)
      else some (p.stack ptr, q)

  -- The new table is cleared through `page_tables`.
  unfoldable pub page_table_touch : (vaddr flags : ℕ) → Pages → Option Pages
  unfolding pop_free_physical_page
  page_table_touch vaddr flags p =
      let vaddr = page_of vaddr in
      if present (p.page_directory (dir_idx vaddr))
      then some p
      else elim (pop_free_physical_page p) [
        | none ↦ none
        | some (page, q) ↦ some (record q {
          page_directory = update q.page_directory (dir_idx vaddr) (bit_or page (flags_of flags));
          page_tables = λ i. if ltb i (2 ^ 10) then 0 else q.page_tables i;
        })
      ]

  unfoldable pub page_set : (vaddr value : ℕ) → Pages → Option Pages
  unfolding page_table_touch
  page_set vaddr value p =
      let vaddr = page_of vaddr in
      elim (page_table_touch vaddr (flags_of value) p) [
        | none ↦ none
        | some q ↦ some (record q { page_tables = update q.page_tables (table_idx vaddr) value })
      ]

module _ (vmm_page_set : (vaddr value : ℕ) → Pages → Pages)
    (vmm_page_val : (page flags : ℕ) → ℕ) where
  -- `PAGE_PRESENT | PAGE_WRITE` is 3.
  unfoldable pub pmm_free_page : (page : ℕ) → Pages → Pages
  pmm_free_page page p =
      let page = page_of page in
      let q = vmm_page_set p.page_stack_max (vmm_page_val page 3) p in
      let grown = record q {
        page_stack_max = (q.page_stack_max + page_size) % 2 ^ 32;
        running = true;
      } in
      let pushed = record p {
        stack = update p.stack p.page_stack_ptr page;
        page_stack_ptr = (p.page_stack_ptr + 4) % 2 ^ 32;
        running = true;
      } in
      if ltb page p.pos then p else if leb p.page_stack_max p.page_stack_ptr then grown else pushed
