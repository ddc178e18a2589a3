-- ===== src/Page/Stack.antt =====
-- The stack of free pages: a page that is pushed is popped, unless it is alone in the last page of the
-- stack.
use eg_gs.Base.{ℕ, ◌+◌, ◌-◌, ◌*◌, ◌^◌, ◌≤◌, ◌<◌, true, update}
use eg_gs.Page.{Pages, page_of, page_size}

-- The stack has room for a page, in the page that it grew by last.
pub record HasRoom (page_stack : ℕ) (p : Pages) : Type 0 where
  pub above : page_stack ≤ p.page_stack_ptr
  pub room : p.page_stack_ptr < p.page_stack_max
  pub inside : p.page_stack_max ≤ p.page_stack_ptr + page_size
  pub base : 2 * page_size ≤ p.page_stack_max
  pub short : p.page_stack_max < 2 ^ 32 - 4

-- The word at the top of the stack has been written, and the stack has its old length.
abbrev pub written : (page : ℕ) → Pages → Pages
written page p = record p { stack = update p.stack p.page_stack_ptr (page_of page); running = true }

-- The last page of the stack has been taken away.
abbrev pub shrunk : (page : ℕ) → Pages → Pages
shrunk page p = record (written page p) { page_stack_max = p.page_stack_max - page_size }

module _ (page_stack : ℕ) (vmm_page_get : Pages → (vaddr : ℕ) → ℕ)
    (vmm_page_set : (vaddr value : ℕ) → Pages → Pages) (vmm_page_val : (page flags : ℕ) → ℕ) where
  -- The page that is mapped below what is left of the stack.
  abbrev pub below : Pages → ℕ
  below p = page_of (vmm_page_get p (p.page_stack_max - page_size))
