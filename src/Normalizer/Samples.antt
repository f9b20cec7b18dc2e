-- ===== src/Normalizer/Samples.antt =====
-- Small texts, and the theorem at one of them.
use contexide.Prelude.{
  ◌≡◌, refl, true, false, List, some, arith, [], ◌∷◌, Chars, chars, reversed, trim,
  trim_start_matches, trim_end_matches, is_whitespace,
}
use contexide.Normalizer.{
  space, mapped, is_dropped, collapse_char, collapse_chars, collapsed, collapse_whitespace, trimmed,
  words_from, normalize,
}
use contexide.Normalizer.Lossless.{ink, collapse_whitespace-ink}
use contexide.Normalizer.Markdown.{
  MdOptions, default_options, table, table_row, table_cell, Event, start, finish, text, code,
  initial, numbered, on_start, on_end, on_event, on_events, render_plain_markdown,
}
use contexide.Normalizer.Markdown.Ink.{content, render_plain_markdown-ink}
use contexide.Normalizer.Markdown.Lists.{list_events, item_lines, on_events-list_events}
use contexide.Normalizer.Markdown.Tables.{table_events, lines, on_events-table_events}
use contexide.Normalizer.Tidy.{is_tidy, starts, collapse_whitespace-tidy}

-- A line that unfolds `program` unfolds all that a run calls.
program : Unit {0}
unfolding chars reversed trim trim_start_matches trim_end_matches is_whitespace mapped is_dropped
    collapse_char collapse_chars collapsed collapse_whitespace trimmed words_from normalize
program = tt

abbrev messy : Chars
messy = 97 ∷ 32 ∷ 9 ∷ 98 ∷ 32 ∷ 10 ∷ 10 ∷ 10 ∷ 9 ∷ 99 ∷ []

collapse_whitespace-messy : collapse_whitespace messy ≡ 97 ∷ 32 ∷ 98 ∷ 10 ∷ 10 ∷ 99 ∷ []
unfolding program
collapse_whitespace-messy = refl

-- A line that ends in a carriage return and a line feed gets a blank line behind it.
normalize-crlf : (normalize (λ s. s) (97 ∷ 13 ∷ 10 ∷ 98 ∷ [])).text ≡ 97 ∷ 10 ∷ 10 ∷ 98 ∷ []
unfolding program
normalize-crlf = refl

collapse_whitespace-tidy_example :
    (is_tidy (reversed (collapse_whitespace messy) []) ≡ true)
    × (starts space (reversed (collapse_whitespace messy) []) ≡ false)
collapse_whitespace-tidy_example = collapse_whitespace-tidy messy

collapse_whitespace-ink_example : ink (collapse_whitespace messy) ≡ ink messy
collapse_whitespace-ink_example = collapse_whitespace-ink messy

-- Three lines and three words.
normalize-stats : normalize (λ s. s) messy ≡ record {
  text = 97 ∷ 32 ∷ 98 ∷ 10 ∷ 10 ∷ 99 ∷ [];
  bytes_in = 10;
  bytes_out = 6;
  changed = true;
  lines = 3;
  words = 3;
}
unfolding program
normalize-stats = refl

abbrev letters : Chars
letters = 97 ∷ []

abbrev list_parser : MdOptions → Chars → List Event
list_parser opts md = list_events (some 2) (letters ∷ md ∷ [])

render_plain_markdown-list :
    render_plain_markdown list_parser (λ h. h) (98 ∷ []) default_options
    ≡ 50 ∷ 46 ∷ 32 ∷ 97 ∷ 10 ∷ 51 ∷ 46 ∷ 32 ∷ 98 ∷ 10 ∷ []
unfolding render_plain_markdown on_events on_event on_start on_end numbered reversed
render_plain_markdown-list = refl

-- A cell without an `Event::Text`, here a piece of code, is fused with the next one.
render_plain_markdown-fused :
    render_plain_markdown
      (λ opts md.
        start table
        ∷ start table_row
        ∷ start table_cell
        ∷ code (97 ∷ [])
        ∷ finish table_cell
        ∷ start table_cell
        ∷ text (98 ∷ [])
        ∷ finish table_cell
        ∷ finish table_row
        ∷ finish table
        ∷ [])
      (λ h. h)
      []
      default_options
    ≡ 97 ∷ 98 ∷ 10 ∷ []
unfolding render_plain_markdown on_events on_event on_start on_end reversed
render_plain_markdown-fused = refl

render_plain_markdown-ink_example :
    ink (render_plain_markdown list_parser (λ h. h) (98 ∷ []) default_options)
    ≡ ink (content (λ h. h) [] (list_parser default_options (98 ∷ [])))
render_plain_markdown-ink_example =
    render_plain_markdown-ink list_parser (λ h. h) (98 ∷ []) default_options

on_events-table_events_example :
    (on_events (λ h. h) default_options (table_events (letters ∷ letters ∷ []) []) initial).out
    ≡ reversed (lines ((letters ∷ letters ∷ []) ∷ [])) []
on_events-table_events_example =
    on_events-table_events (λ h. h) default_options initial (letters ∷ letters ∷ []) []
      ((97 ∷ 9 ∷ [], 97, refl, omega arith), tt)

on_events-list_events_example :
    ((on_events (λ h. h) default_options (list_events (some 2) (letters ∷ [])) initial).out
      ≡ reversed (item_lines 2 (letters ∷ [])) [])
    × ((on_events (λ h. h) default_options (list_events (some 2) (letters ∷ [])) initial).ordered
        ≡ [])
on_events-list_events_example =
    on_events-list_events (λ h. h) default_options initial (some 2) letters [] refl
      (([], 97, refl, omega arith), tt) (omega arith)
