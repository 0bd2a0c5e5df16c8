-- ===== src/Links.antt =====
-- Dev/Main/src/Base/List.h and List.cpp: a list of items that are linked in both directions.
pub mod Chain
pub mod Refine
mod Tests
use trans_proxy.Base.{
  ℕ, ◌+◌, ◌-◌, Bool, true, false, Option, none, some, ◌==◌, if◌then◌else◌, add_size, sub_size,
}

-- `ListItem`. An item is named by its address.
pub record Link : Type 0 where
  pub prev : Option ℕ
  pub next : Option ℕ

abbrev pub Cells : Type 0
Cells = ℕ → Link

-- `_List`, with the links of all items.
pub record Linked : Type 0 where
  pub first : Option ℕ
  pub last : Option ℕ
  pub count : ℕ
  pub cells : Cells

-- `item->prev (v)` and `item->next (v)`
abbrev pub set_prev : ℕ → Option ℕ → Cells → Cells
set_prev i v c j = if j == i then record (c j) { prev = v } else c j

abbrev pub set_next : ℕ → Option ℕ → Cells → Cells
set_next i v c j = if j == i then record (c j) { next = v } else c j

-- The same where the pointer is not null.
abbrev pub prev_if : Option ℕ → Option ℕ → Cells → Cells
prev_if none v c = c
prev_if (some i) v c = set_prev i v c

abbrev pub next_if : Option ℕ → Option ℕ → Cells → Cells
next_if none v c = c
next_if (some i) v c = set_next i v c

-- `if (p) … else _first = v`, or `_last = v`
abbrev pub or_end : Option ℕ → Option ℕ → Option ℕ → Option ℕ
or_end none v old = v
or_end (some i) v old = old

-- `__insertHead`
unfoldable pub insert_head : ℕ → Linked → Linked
insert_head item l =
    let c = set_next item l.first (set_prev item none l.cells) in
    record {
      first = some item;
      last = or_end l.first (some item) l.last;
      count = add_size l.count 1;
      cells = prev_if l.first (some item) c;
    }

-- `__insertTail`
unfoldable pub insert_tail : ℕ → Linked → Linked
insert_tail item l =
    let c = set_next item none (set_prev item l.last l.cells) in
    record {
      first = or_end l.last (some item) l.first;
      last = some item;
      count = add_size l.count 1;
      cells = next_if l.last (some item) c;
    }

-- `__insertBefore`: at a null `ref` the item becomes the first.
unfoldable pub insert_before : ℕ → Option ℕ → Linked → Linked
unfolding insert_head
insert_before item none l = insert_head item l
insert_before item (some ref) l =
    let prev = (l.cells ref).prev in
    let c = set_next item (some ref) (set_prev item prev l.cells) in
    record l {
      first = or_end prev (some item) l.first;
      count = add_size l.count 1;
      cells = next_if prev (some item) (set_prev ref (some item) c);
    }

-- `__insertAfter`: at a null `ref` the item becomes the last.
unfoldable pub insert_after : ℕ → Option ℕ → Linked → Linked
unfolding insert_tail
insert_after item none l = insert_tail item l
insert_after item (some ref) l =
    let next = (l.cells ref).next in
    let c = set_next item next (set_prev item (some ref) l.cells) in
    record l {
      last = or_end next (some item) l.last;
      count = add_size l.count 1;
      cells = set_next ref (some item) (prev_if next (some item) c);
    }

-- `__remove`
unfoldable pub remove : ℕ → Linked → Linked
remove item l =
    let prev = (l.cells item).prev in
    let next = (l.cells item).next in
    record {
      first = or_end prev next l.first;
      last = or_end next prev l.last;
      count = sub_size l.count 1;
      cells = prev_if next prev (next_if prev next l.cells);
    }
