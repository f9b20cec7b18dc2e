-- ===== src/Normalizer/Markdown/Lists.antt =====
-- How the renderer lays out a list.
use contexide.Prelude.{
  ℕ, suc, ◌+◌, ◌%◌, ◌^◌, ◌<◌, ◌≡◌, refl, sym, ap, ◌∙◌, inl, inr, false, Option, List, [], ◌∷◌, ◌++◌,
  eqb, if◌then◌else◌, Chars, arith, reversed, length, Bool-cases,
}
use contexide.Normalizer.{line_feed}
use contexide.Normalizer.Markdown.{
  MdOptions, list, item, Event, start, finish, text, State, on_block, on_item, bullet, numbered,
  unwrap_or_zero, on_start, on_end, on_event, on_events,
}
use contexide.Normalizer.Markdown.Ink.{reversed-append}
use contexide.Normalizer.Markdown.Tables.{EndsInLine, ensure_newline_of_line}

-- A list with a text in each item.
abbrev pub items_events : Option ℕ → List Chars → List Event
items_events first [] = finish (list first) ∷ []
items_events first (s ∷ items) = start item ∷ text s ∷ finish item ∷ items_events first items

abbrev pub list_events : Option ℕ → List Chars → List Event
list_events first items = start (list first) ∷ items_events first items

-- The marks of a list that begins at `n`: dashes from 0 on, and numbers from any other.
abbrev pub mark : ℕ → Chars
mark n = if eqb n 0 then bullet else numbered n

abbrev pub next_number : ℕ → ℕ
next_number n = if eqb n 0 then 0 else n + 1

abbrev pub item_lines : ℕ → List Chars → Chars
item_lines n [] = []
item_lines n (s ∷ items) = mark n ++ (s ++ line_feed ∷ item_lines (next_number n) items)

abbrev pub ItemsEndInLine : List Chars → Type 0
ItemsEndInLine [] = Unit
ItemsEndInLine (s ∷ items) = EndsInLine s × ItemsEndInLine items

small-next : (n k : ℕ) → n + suc k < 2 ^ 64 → (n + 1 < 2 ^ 64) × (next_number n + k < 2 ^ 64)
small-next n k small = ground arith

pushed-item :
    (s more : Chars) (n : ℕ) (out : Chars)
    → reversed more (line_feed ∷ reversed s (reversed (mark n) out))
      ≡ reversed (mark n ++ (s ++ line_feed ∷ more)) out
unfolding reversed
pushed-item s more n out = sym (
    reversed-append (mark n) (s ++ line_feed ∷ more) out
    ∙ reversed-append s (line_feed ∷ more) (reversed (mark n) out))

module _ (html_text : Chars → Chars) (opts : MdOptions) where
  abbrev in_list : List ℕ → ℕ → ℕ → ℕ → Chars → State
  in_list ordered cell row n out = record {
    ordered = n ∷ ordered;
    in_table = false;
    row_cell_idx = cell;
    row_idx = row;
    at_block_start = false;
    out = out;
  }

  module _ (ordered : List ℕ) (cell row : ℕ) where
    item-started :
        (n : ℕ) (out : Chars)
        → n + 1 < 2 ^ 64
        → on_item (in_list ordered cell row n out)
          ≡ in_list ordered cell row (next_number n) (reversed (mark n) out)
    item-started n out small = elim (Bool-cases (eqb n 0)) [
      | inl none_left ↦ let zero_n : n ≡ 0 = ground arith in rw none_left (rw zero_n refl)
      | inr some_left ↦
          let kept : (n + 1) % 2 ^ 64 ≡ n + 1 = omega arith in
          rw some_left (ap (λ m. in_list ordered cell row m (reversed (numbered n) out)) kept)
    ]

    item-done :
        (s : Chars) (rest : List Event) (n : ℕ) (out : Chars)
        → EndsInLine s
        → n + 1 < 2 ^ 64
        → on_events html_text opts
            (start item ∷ text s ∷ finish item ∷ rest)
            (in_list ordered cell row n out)
          ≡ on_events html_text opts rest (
              in_list ordered cell row
                (next_number n)
                (line_feed ∷ reversed s (reversed (mark n) out)))
    unfolding on_events on_event on_start on_end
    item-done s rest n out end small =
        ap
          (λ st.
            on_events html_text opts rest
              (on_event html_text opts (finish item) (on_event html_text opts (text s) st)))
          (item-started n out small)
        ∙ ap (λ o. on_events html_text opts rest (in_list ordered cell row (next_number n) o))
            (ensure_newline_of_line s (reversed (mark n) out) end)

    abbrev left_list : Chars → State
    left_list out = record (in_list ordered cell row 0 out) { ordered = ordered }

    items-out :
        (first : Option ℕ) (items : List Chars) (n : ℕ) (out : Chars)
        → ItemsEndInLine items
        → n + length items < 2 ^ 64
        → on_events html_text opts
            (items_events first items)
            (in_list ordered cell row n (line_feed ∷ out))
          ≡ left_list (reversed (item_lines n items) (line_feed ∷ out))
    unfolding on_events on_event on_end reversed
    items-out first [] n out ends small = refl
    items-out first (s ∷ items) n out (end, ends) small =
        let (here, later) = small-next n (length items) small in
        item-done s (items_events first items) n (line_feed ∷ out) end here
        ∙ items-out first items (next_number n) (reversed s (reversed (mark n) (line_feed ∷ out)))
            ends later
        ∙ ap left_list (pushed-item s (item_lines (next_number n) items) n (line_feed ∷ out))

  -- A list whose items each have one text, not empty and not ending in a line feed, outside a table,
  -- is pushed as a line for each item: with the numbers from the first on if that is not 0, with
  -- dashes if the list has no number or begins at 0. It begins on a line of its own, unless it is the
  -- first block, and the lists around it keep their numbers.
  pub on_events-list_events :
      (st : State) (first : Option ℕ) (s : Chars) (items : List Chars)
      → st.in_table ≡ false
      → ItemsEndInLine (s ∷ items)
      → unwrap_or_zero first + length (s ∷ items) < 2 ^ 64
      → let next = on_events html_text opts (list_events first (s ∷ items)) st in
        (next.out ≡ reversed (item_lines (unwrap_or_zero first) (s ∷ items)) (on_block st).out)
        × (next.ordered ≡ st.ordered)
  unfolding on_events on_event on_start
  on_events-list_events st first s items outside (end, ends) small =
      let n = unwrap_or_zero first in
      let out = (on_block st).out in
      let (here, later) = small-next n (length items) small in
      let all =
        ap
          (λ b.
            on_events html_text opts (items_events first (s ∷ items))
              (record (in_list st.ordered st.row_cell_idx st.row_idx n out) { in_table = b }))
          outside
        ∙ item-done st.ordered st.row_cell_idx st.row_idx s (items_events first items) n out end
            here
        ∙ items-out st.ordered st.row_cell_idx st.row_idx first items (next_number n)
            (reversed s (reversed (mark n) out)) ends later
        ∙ ap (left_list st.ordered st.row_cell_idx st.row_idx)
            (pushed-item s (item_lines (next_number n) items) n out) in
      (ap (λ t. t.out) all, ap (λ t. t.ordered) all)
