-- ===== src/Normalizer/Markdown.antt =====
-- crates/contexide-normalizer/src/markdown.rs. The parser of the crate `pulldown_cmark` is the
-- parameter `parser`, which gives the events of a text; what html.rs makes of a piece of HTML is
-- `html_text` in the renderer.
pub mod Ink
pub mod Lists
pub mod Tables
use contexide.Prelude.{
  ℕ, zero, suc, ◌+◌, ◌*◌, ◌/◌, ◌%◌, ◌^◌, Bool, true, false, not, ◌&&◌, Option, none, some, List, [],
  ◌∷◌, ◌++◌, eqb, ltb, if◌then◌else◌, Chars, reversed,
}
use contexide.Normalizer.Html.{normalize_html}
use contexide.Normalizer.{line_feed, space, tab, NormalizedText, normalize}

pub record MdOptions : Type 0 where
  pub enable_tables : Bool
  pub enable_footnotes : Bool
  pub enable_tasklists : Bool
  pub enable_strikethrough : Bool
  pub soft_break_as_space : Bool

abbrev pub default_options : MdOptions
default_options = record {
  enable_tables = true;
  enable_footnotes = false;
  enable_tasklists = true;
  enable_strikethrough = true;
  soft_break_as_space = true;
}

-- The tags of the crate that the renderer tells apart; the rest are `other`.
pub data Tag : Type 0 where
  paragraph : Tag
  heading : Tag
  block_quote : Tag
  code_block : Tag
  list : Option ℕ → Tag
  item : Tag
  table : Tag
  table_head : Tag
  table_row : Tag
  table_cell : Tag
  link : Tag
  image : Tag
  other : Tag

pub data Event : Type 0 where
  start : Tag → Event
  finish : Tag → Event
  text : Chars → Event
  code : Chars → Event
  html : Chars → Event
  soft_break : Event
  hard_break : Event
  rule : Event
  footnote_reference : Chars → Event
  task_list_marker : Bool → Event
  inline_math : Chars → Event
  display_math : Chars → Event
  inline_html : Chars → Event

-- `State` with the buffer `out`, which is held in reverse: to push is to put in front. The numbers of
-- rows and cells are bounded by the length of the text, and do not wrap around.
pub record State : Type 0 where
  pub ordered : List ℕ
  pub in_table : Bool
  pub row_cell_idx : ℕ
  pub row_idx : ℕ
  pub at_block_start : Bool
  pub out : Chars

abbrev pub initial : State
initial = record {
  ordered = [];
  in_table = false;
  row_cell_idx = 0;
  row_idx = 0;
  at_block_start = true;
  out = [];
}

abbrev pub ensure_newline : Chars → Chars
ensure_newline [] = []
ensure_newline (c ∷ buf) = if eqb c line_feed then c ∷ buf else line_feed ∷ c ∷ buf

-- `buf.ends_with("\n\n")`
abbrev pub ends_blank : Chars → Bool
ends_blank [] = false
ends_blank (c ∷ []) = false
ends_blank (c ∷ d ∷ buf) = eqb c line_feed && eqb d line_feed

abbrev pub ensure_blank_line : Chars → Chars
ensure_blank_line buf = if ends_blank buf then buf else line_feed ∷ ensure_newline buf

-- `push_str`
abbrev pub push_str : Chars → State → State
push_str s st = record st { out = reversed s st.out }

abbrev pub bullet : Chars
bullet = 45 ∷ space ∷ []

-- The digits of a number in front of `acc`; a `usize` has at most 20.
abbrev pub decimal_from : ℕ → ℕ → Chars → Chars
decimal_from zero n acc = acc
decimal_from (suc fuel) n acc =
    let rest = decimal_from fuel (n / 10) ((48 + n % 10) ∷ acc) in
    if ltb n 10 then (48 + n % 10) ∷ acc else rest

-- `write!(&mut out, "{}. ", *top)`
unfoldable pub numbered : ℕ → Chars
numbered top = decimal_from 20 top (46 ∷ space ∷ [])

abbrev pub on_item : State → State
on_item st = elim st.ordered [
  | top ∷ rest ↦
      if eqb top 0
      then push_str bullet st
      else record (push_str (numbered top) st) { ordered = (top + 1) % 2 ^ 64 ∷ rest }
  | [] ↦ push_str bullet st
]

-- A block that begins on a line of its own, unless it is the first.
abbrev pub on_block : State → State
on_block st = record st {
  out = if st.at_block_start then st.out else ensure_newline st.out;
  at_block_start = false;
}

abbrev pub unwrap_or_zero : Option ℕ → ℕ
unwrap_or_zero none = 0
unwrap_or_zero (some n) = n

abbrev pub on_row : State → State
on_row st = record st {
  out = if ltb 0 st.row_idx then ensure_newline st.out else st.out;
  row_cell_idx = 0;
  row_idx = st.row_idx + 1;
}

-- `Event::Start(tag)`
unfoldable pub on_start : Tag → State → State
on_start paragraph st = on_block st
on_start heading st = record st {
  out = if st.at_block_start then st.out else ensure_blank_line st.out;
  at_block_start = false;
}
on_start block_quote st = on_block st
on_start code_block st = record st { out = ensure_blank_line st.out; at_block_start = false }
on_start (list first) st = on_block (record st { ordered = unwrap_or_zero first ∷ st.ordered })
on_start item st = on_item st
on_start table st = record (on_block st) { in_table = true; row_idx = 0 }
on_start table_head st = on_row st
on_start table_row st = on_row st
on_start table_cell st = if ltb 0 st.row_cell_idx then push_str (tab ∷ []) st else st
on_start link st = st
on_start image st = st
on_start other st = st

abbrev pub popped : List ℕ → List ℕ
popped [] = []
popped (top ∷ rest) = rest

abbrev pub newline_after : State → State
newline_after st = record st { out = ensure_newline st.out }

-- `Event::End(tag_end)`
unfoldable pub on_end : Tag → State → State
on_end paragraph st = newline_after st
on_end heading st = record st { out = ensure_blank_line st.out }
on_end block_quote st = newline_after st
on_end code_block st = record st { out = ensure_blank_line st.out }
on_end (list first) st = newline_after (record st { ordered = popped st.ordered })
on_end item st = newline_after st
on_end table st = newline_after (record st { in_table = false })
on_end table_head st = st
on_end table_row st = st
on_end table_cell st = st
on_end link st = st
on_end image st = st
on_end other st = st

module _ (html_text : Chars → Chars) (opts : MdOptions) where
  unfoldable pub on_event : Event → State → State
  on_event (start tag) st = on_start tag st
  on_event (finish tag) st = on_end tag st
  on_event (text cow) st =
      if st.in_table
      then record (push_str cow st) { row_cell_idx = st.row_cell_idx + 1 }
      else push_str cow st
  on_event (code cow) st = push_str cow st
  on_event (html cow) st = st
  on_event soft_break st =
      push_str ((if opts.soft_break_as_space then space else line_feed) ∷ []) st
  on_event hard_break st = push_str (line_feed ∷ []) st
  on_event rule st = record st { out = ensure_blank_line st.out }
  on_event (footnote_reference label) st = st
  on_event (task_list_marker checked) st = st
  on_event (inline_math cow) st = push_str cow st
  on_event (display_math cow) st = push_str cow st
  on_event (inline_html cow) st = push_str (html_text cow) st

  -- `for ev in parser`
  unfoldable pub on_events : List Event → State → State
  on_events [] st = st
  on_events (ev ∷ events) st = on_events events (on_event ev st)

-- `render_plain_markdown`
unfoldable pub render_plain_markdown :
    (MdOptions → Chars → List Event) → (Chars → Chars) → Chars → MdOptions → Chars
render_plain_markdown parser html_text md opts =
    reversed (on_events html_text opts (parser opts md) initial).out []

unfoldable pub normalize_markdown_with :
    (MdOptions → Chars → List Event)
    → (Chars → ℕ → Option Chars)
    → (Chars → Chars)
    → Chars
    → MdOptions
    → NormalizedText
normalize_markdown_with parser from_read nfkc md opts =
    let html_text = λ (cow : Chars). (normalize_html from_read nfkc cow).text in
    normalize nfkc (render_plain_markdown parser html_text md opts)

abbrev pub normalize_markdown :
    (MdOptions → Chars → List Event)
    → (Chars → ℕ → Option Chars)
    → (Chars → Chars)
    → Chars
    → NormalizedText
normalize_markdown parser from_read nfkc md =
    normalize_markdown_with parser from_read nfkc md default_options
