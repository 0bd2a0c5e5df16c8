-- ===== src/Links/Tests.antt =====
-- A list of two items, a third one put in and the first one taken out.
use trans_proxy.Base.{◌≡◌, refl, none, some, [], ◌∷◌, ◌++◌, arith}
use trans_proxy.Links.{Linked, insert_head, insert_tail, insert_before, insert_after, remove}
use trans_proxy.Links.Refine.{IsList, insert_before-IsList, remove-IsList}

abbrev nothing : Linked
nothing = record {
  first = none;
  last = none;
  count = 0;
  cells = λ i. record { prev = none; next = none };
}

abbrev two_items : Linked
two_items = record {
  first = some 1;
  last = some 2;
  count = 2;
  cells = (insert_tail 2 (insert_tail 1 nothing)).cells;
}

in_order : IsList two_items (1 ∷ 2 ∷ [])
unfolding insert_tail
in_order = record {
  first = refl;
  last = refl;
  chain = (refl, refl, (refl, refl, tt));
  apart = (((λ e. omega (arith, e)), tt), (tt, tt));
  counted = refl;
}

insert_before-IsList_example :
    IsList (insert_before 3 (some 2) two_items) ((1 ∷ []) ++ (3 ∷ 2 ∷ []))
insert_before-IsList_example =
    insert_before-IsList two_items 3 2 (1 ∷ []) [] in_order
      ((λ e. omega (arith, e)), ((λ e. omega (arith, e)), tt)) (omega arith)

remove-IsList_example : IsList (remove 1 two_items) ([] ++ (2 ∷ []))
remove-IsList_example = remove-IsList two_items 1 [] (2 ∷ []) in_order (omega arith)

-- With no item to stand before or behind, the item becomes the first, or the last.
at_ends :
    ((insert_before 3 none two_items).first ≡ some 3)
    × ((insert_after 3 none two_items).last ≡ some 3)
    × ((insert_head 3 two_items).last ≡ some 2)
unfolding insert_before insert_after insert_head
at_ends = (refl, refl, refl)
