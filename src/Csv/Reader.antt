-- ===== src/Csv/Reader.antt =====
-- A reader of CSV texts, as RFC 4180 describes them, apart from the writer of
-- api/app/utils/csv_export.py: an automaton that takes one character at a time.
pub mod Fields
use proyecto_1_back.Prelude.{ℕ, Option, none, some, List, [], ◌∷◌, ◌==◌, if◌then◌else◌}
use proyecto_1_back.Text.{Text}

-- where the reader stands: before a row, before a field, inside a field, inside quotes, after a quote
-- that was inside quotes, or after a carriage return
pub data Place : Type 0 where
  line start inside quoted closing ending : Place

-- what it does with a character
pub data Action : Type 0 where
  keep skip end_field end_row : Action

abbrev pub inside_step : ℕ → Place × Action
inside_step c =
    if c == 44
    then (start, end_field)
    else (if c == 13 then (ending, skip) else (if c == 10 then (line, end_row) else (inside, keep)))

abbrev pub step : Place → ℕ → Place × Action
step line c = if c == 34 then (quoted, skip) else inside_step c
step start c = if c == 34 then (quoted, skip) else inside_step c
step inside c = inside_step c
step quoted c = if c == 34 then (closing, skip) else (quoted, keep)
step closing c = if c == 34 then (quoted, keep) else inside_step c
step ending c = if c == 10 then (line, end_row) else (inside, keep)

-- what is still to come: the rest of the field that is being read, the other fields of its row, and
-- the rows after it; nothing at the end of the text
pub record Rest : Type 0 where
  pub field : Text
  pub fields : List Text
  pub rows : List (List Text)

abbrev pub rows_of : Option Rest → List (List Text)
rows_of none = []
rows_of (some r) = (r.field ∷ r.fields) ∷ r.rows

abbrev pub push : ℕ → Option Rest → Option Rest
push c none = some (record { field = c ∷ []; fields = []; rows = [] })
push c (some r) = some (record r { field = c ∷ r.field })

abbrev pub new_field : Option Rest → Option Rest
new_field none = some (record { field = []; fields = [] ∷ []; rows = [] })
new_field (some r) = some (record { field = []; fields = r.field ∷ r.fields; rows = r.rows })

abbrev pub act : Action → ℕ → Option Rest → Option Rest
act keep c rest = push c rest
act skip c rest = rest
act end_field c rest = new_field rest
act end_row c rest = some (record { field = []; fields = []; rows = rows_of rest })

abbrev pub at_end : Place → Option Rest
at_end line = none
at_end _ = some (record { field = []; fields = []; rows = [] })

unfoldable pub read : Place → Text → Option Rest
read p [] = at_end p
read p (c ∷ s) = act (step p c).1 c (read (step p c).0 s)

unfoldable pub read_csv : Text → List (List Text)
unfolding read
read_csv s = rows_of (read line s)
