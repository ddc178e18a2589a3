-- ===== src/Tests/Pages.antt =====
-- A stack of free pages with room, and two tables.
use eg_gs.Base.{ℕ, ◌≡◌, refl, true, ◌&&◌, some, ◌==◌, if◌then◌else◌}
use eg_gs.Page.{Pages, page_of, dir_idx, table_idx, present, page_get, page_set}
use eg_gs.Page.Entries.{page_get-page_set}

abbrev two_tables : Pages
two_tables = record {
  page_directory = λ i. if i == 0 then 0x5003 else if i == 1 then 0x6003 else 0;
  page_tables = λ _. 0;
  stack = λ _. 0;
  page_stack_max = 0x3E10_1000;
  page_stack_ptr = 0x3E10_0010;
  running = true;
  pos = 0x20_0000;
}

abbrev no_get : Pages → (vaddr : ℕ) → ℕ
no_get _ _ = 0

abbrev no_set : (vaddr value : ℕ) → Pages → Pages
no_set _ _ p = p

abbrev page_bits : (page flags : ℕ) → ℕ
page_bits page _ = page

-- The stack has just grown by the page that it ends with.
abbrev just_grown : Pages
just_grown = record two_tables { page_stack_ptr = 0x3E10_0000 }

page_get-page_set_example :
    (q : Pages) × (page_set 0x3E10_0000 no_get no_set 0x1000 0x7003 two_tables ≡ some q)
    × ((a : ℕ)
        → page_get q a ≡ (
            if present (two_tables.page_directory (dir_idx (page_of a)))
              && table_idx (page_of 0x1000) == table_idx (page_of a)
            then (if present 0x7003 then 0x7003 else 0)
            else page_get two_tables a))
page_get-page_set_example =
    page_get-page_set 0x3E10_0000 no_get no_set two_tables 0x1000 0x7003 refl
