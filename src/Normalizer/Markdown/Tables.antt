-- ===== src/Normalizer/Markdown/Tables.antt =====
-- How the renderer lays out a table.
use contexide.Prelude.{
  ℕ, suc, ◌+◌, ◌≡◌, ◌≢◌, refl, sym, ap, ◌∙◌, Bool, true, false, List, [], ◌∷◌, ◌++◌, ltb,
  if◌then◌else◌, Chars, arith, reversed, length,
}
use contexide.Normalizer.{line_feed, tab}
use contexide.Normalizer.Markdown.{
  MdOptions, table, table_head, table_row, table_cell, Event, start, finish, text, State,
  ensure_newline, on_block, push_str, on_start, on_end, on_event, on_events,
}
use contexide.Normalizer.Markdown.Ink.{reversed-append}

-- A text that ends within a line.
abbrev pub EndsInLine : Chars → Type 0
EndsInLine s = (before : Chars) × (c : ℕ) × (s ≡ before ++ c ∷ []) × (c ≢ line_feed)

-- A line feed is pushed behind such a text.
pub ensure_newline_of_line :
    (s out : Chars) → EndsInLine s → ensure_newline (reversed s out) ≡ line_feed ∷ reversed s out
unfolding reversed
ensure_newline_of_line s out (before, c, e, ne) =
    let back : reversed s out ≡ c ∷ reversed before out =
      ap (λ t. reversed t out) e ∙ reversed-append before (c ∷ []) out in
    ap ensure_newline back ∙ ground (arith, ne) ∙ ap (λ t. line_feed ∷ t) (sym back)

abbrev pub cell_events : List Chars → List Event
cell_events [] = []
cell_events (cell ∷ cells) = start table_cell ∷ text cell ∷ finish table_cell ∷ cell_events cells

-- A table with a text in each cell.
abbrev pub rows_events : List (List Chars) → List Event
rows_events [] = finish table ∷ []
rows_events (row ∷ rows) =
    start table_row ∷ (cell_events row ++ finish table_row ∷ rows_events rows)

abbrev pub table_events : List Chars → List (List Chars) → List Event
table_events head rows =
    start table ∷ start table_head ∷ (cell_events head ++ finish table_head ∷ rows_events rows)

-- The cells after the first one, and all cells, of a row.
abbrev pub further : List Chars → Chars
further [] = []
further (cell ∷ cells) = tab ∷ (cell ++ further cells)

abbrev pub joined : List Chars → Chars
joined [] = []
joined (cell ∷ cells) = cell ++ further cells

abbrev pub lines : List (List Chars) → Chars
lines [] = []
lines (row ∷ rows) = joined row ++ line_feed ∷ lines rows

abbrev pub AllEndInLine : List (List Chars) → Type 0
AllEndInLine [] = Unit
AllEndInLine (row ∷ rows) = EndsInLine (joined row) × AllEndInLine rows

positive : (n : ℕ) → ltb 0 (n + 1) ≡ true
positive n = ground arith

module _ (html_text : Chars → Chars) (opts : MdOptions) where
  abbrev in_row : List ℕ → Bool → ℕ → ℕ → Chars → State
  in_row ordered at cell row out = record {
    ordered = ordered;
    in_table = true;
    row_cell_idx = cell;
    row_idx = row;
    at_block_start = at;
    out = out;
  }

  module _ (ordered : List ℕ) (at : Bool) where
    cell-started :
        (n row : ℕ) (out : Chars)
        → ltb 0 n ≡ true
        → on_start table_cell (in_row ordered at n row out) ≡ in_row ordered at n row (tab ∷ out)
    unfolding on_start reversed
    cell-started n row out later =
        let st = in_row ordered at n row out in
        ap (λ (b : Bool). if b then push_str (tab ∷ []) st else st) later

    further-cells :
        (cells : List Chars) (rest : List Event) (n row : ℕ) (out : Chars)
        → ltb 0 n ≡ true
        → on_events html_text opts (cell_events cells ++ rest) (in_row ordered at n row out)
          ≡ on_events html_text opts rest
              (in_row ordered at (n + length cells) row (reversed (further cells) out))
    unfolding on_events on_event on_start on_end reversed
    further-cells [] rest n row out later =
        ap (λ k. on_events html_text opts rest (in_row ordered at k row out)) (omega arith)
    further-cells (cell ∷ cells) rest n row out later =
        ap
          (λ st.
            on_events html_text opts (cell_events cells ++ rest) (
              on_event html_text opts (finish table_cell) (on_event html_text opts (text cell) st)))
          (cell-started n row out later)
        ∙ further-cells cells rest (n + 1) row (reversed cell (tab ∷ out)) (positive n)
        ∙ ap
            (λ k.
              on_events html_text opts rest
                (in_row ordered at k row (reversed (further cells) (reversed cell (tab ∷ out)))))
            (omega arith)
        ∙ ap (λ o. on_events html_text opts rest (in_row ordered at (n + suc (length cells)) row o))
            (sym (reversed-append cell (further cells) (tab ∷ out)))

    first-cells :
        (cell : Chars) (cells : List Chars) (rest : List Event) (row : ℕ) (out : Chars)
        → on_events html_text opts
            (cell_events (cell ∷ cells) ++ rest)
            (in_row ordered at 0 row out)
          ≡ on_events html_text opts rest
              (in_row ordered at (1 + length cells) row (reversed (joined (cell ∷ cells)) out))
    unfolding on_events on_event on_start on_end reversed
    first-cells cell cells rest row out =
        further-cells cells rest 1 row (reversed cell out) refl
        ∙ ap (λ o. on_events html_text opts rest (in_row ordered at (1 + length cells) row o))
            (sym (reversed-append cell (further cells) out))

    all-cells :
        (cells : List Chars) (rest : List Event) (row : ℕ) (out : Chars)
        → on_events html_text opts (cell_events cells ++ rest) (in_row ordered at 0 row out)
          ≡ on_events html_text opts rest
              (in_row ordered at (length cells) row (reversed (joined cells) out))
    unfolding reversed
    all-cells [] rest row out = refl
    all-cells (cell ∷ cells) rest row out =
        first-cells cell cells rest row out
        ∙ ap
            (λ k.
              on_events html_text opts rest
                (in_row ordered at k row (reversed (joined (cell ∷ cells)) out)))
            (omega arith)

    row-started :
        (cell n : ℕ) (out : Chars)
        → ltb 0 n ≡ true
        → on_start table_row (in_row ordered at cell n out)
          ≡ in_row ordered at 0 (n + 1) (ensure_newline out)
    unfolding on_start
    row-started cell n out later =
        ap (λ (b : Bool). in_row ordered at 0 (n + 1) (if b then ensure_newline out else out)) later

    -- What the rows after the first push, each behind a line feed.
    rows-out :
        (rows : List (List Chars)) (cell n : ℕ) (out : Chars)
        → AllEndInLine rows
        → ltb 0 n ≡ true
        → ensure_newline out ≡ line_feed ∷ out
        → (on_events html_text opts (rows_events rows) (in_row ordered at cell n out)).out
          ≡ reversed (lines rows) (line_feed ∷ out)
    unfolding on_events on_event on_end reversed
    rows-out [] cell n out ends later ends_here = ends_here
    rows-out (row ∷ rows) cell n out (end, ends) later ends_here =
        let rest = finish table_row ∷ rows_events rows in
        let pushed = reversed (joined row) (line_feed ∷ out) in
        ap (λ st. (on_events html_text opts (cell_events row ++ rest) st).out)
          (row-started cell n out later)
        ∙ ap
            (λ o.
              (on_events html_text opts (cell_events row ++ rest)
                (in_row ordered at 0 (n + 1) o)).out)
            ends_here
        ∙ ap (λ st. st.out) (all-cells row rest (n + 1) (line_feed ∷ out))
        ∙ rows-out rows (length row) (n + 1) pushed ends (positive n)
            (ensure_newline_of_line (joined row) (line_feed ∷ out) end)
        ∙ sym (reversed-append (joined row) (line_feed ∷ lines rows) (line_feed ∷ out))

  -- A table whose cells each have one text, and whose rows do not end in a line feed and are not
  -- empty, is pushed as its rows, each with a line feed behind it, with a tab between the cells; it
  -- begins on a line of its own, unless it is the first block.
  pub on_events-table_events :
      (st : State) (head : List Chars) (rows : List (List Chars))
      → AllEndInLine (head ∷ rows)
      → (on_events html_text opts (table_events head rows) st).out
        ≡ reversed (lines (head ∷ rows)) (on_block st).out
  unfolding on_events on_event on_start on_end reversed
  on_events-table_events st head rows (end, ends) =
      let out = (on_block st).out in
      let rest = finish table_head ∷ rows_events rows in
      ap (λ s. s.out) (all-cells st.ordered false head rest 1 out)
      ∙ rows-out st.ordered false rows (length head) 1 (reversed (joined head) out) ends refl
          (ensure_newline_of_line (joined head) out end)
      ∙ sym (reversed-append (joined head) (line_feed ∷ lines rows) out)
