-- ===== src/Csv/Reader/Fields.antt =====
-- What the reader makes of a written field, a written row, and an exported text of
-- api/app/utils/csv_export.py.
use proyecto_1_back.Prelude.{
  ℕ, ◌≡◌, refl, ap, ◌∙◌, false, ◌||◌, Option, some, List, [], ◌∷◌, ◌++◌, map, ◌==◌, ==_iff,
  Bool-cases, inl, inr, arith,
}
use mathlib.Core.List.{append_assoc}
use proyecto_1_back.Text.{Text}
use proyecto_1_back.Models.{Time}
use proyecto_1_back.Csv.{
  Value, Dict, needs_quotes, double_quotes, write_field, write_fields, write_row, row_fields,
  write_rows, export_to_csv,
}
use proyecto_1_back.Csv.Reader.{
  Place, new_field, line, start, inside, quoted, closing, Action, step, Rest, rows_of, push, read,
  read_csv,
}

abbrev pushes : Text → Option Rest → Option Rest
pushes [] r = r
pushes (c ∷ f) r = push c (pushes f r)

abbrev rest : Text → List Text → List (List Text) → Option Rest
rest field fields rows = some (record { field = field; fields = fields; rows = rows })

pushes_all :
    (f : Text) (fields : List Text) (rows : List (List Text))
    → pushes f (rest [] fields rows) ≡ rest f fields rows
pushes_all [] fields rows = refl
pushes_all (c ∷ f) fields rows = ap (push c) (pushes_all f fields rows)

read_quoted : (f s : Text) → read quoted (double_quotes f ++ (34 ∷ s)) ≡ pushes f (read closing s)
unfolding read double_quotes
read_quoted [] s = refl
read_quoted (c ∷ f) s = elim (Bool-cases (c == 34)) [
  | inl e ↦ rw e (rw ((==_iff c 34).0 e) (ap (push 34) (read_quoted f s)))
  | inr e ↦ rw (e, e) (ap (push c) (read_quoted f s))
]

-- a character that needs no quotes
plain_step :
    (c : ℕ)
    → ((c == 44) || (c == 34) || (c == 13) || (c == 10)) ≡ false
    → (step inside c ≡ (inside, Action.keep)) × (step start c ≡ (inside, Action.keep))
plain_step c h = (ground arith, ground arith)

read_plain : (f s : Text) → needs_quotes f ≡ false → read inside (f ++ s) ≡ pushes f (read inside s)
unfolding read needs_quotes
read_plain [] s h = refl
read_plain (c ∷ f) s h =
    rw (plain_step c (ground (arith, h))).0 (ap (push c) (read_plain f s (ground (arith, h))))

read_unquoted :
    (p : Place) (f : Text) (d : ℕ) (s : Text)
    → ((c : ℕ) → step p c ≡ step start c)
    → read start (d ∷ s) ≡ read inside (d ∷ s)
    → needs_quotes f ≡ false
    → read p (f ++ (d ∷ s)) ≡ pushes f (read inside (d ∷ s))
unfolding needs_quotes read
read_unquoted p [] d s opens starts h = rw (opens d) starts
read_unquoted p (c ∷ f) d s opens starts h =
    rw (opens c, (plain_step c (ground (arith, h))).1)
      (ap (push c) (read_plain f (d ∷ s) (ground (arith, h))))

-- A field, whatever it holds, is read back up to the comma or the carriage return after it.
read_field :
    (p : Place) (f : Text) (d : ℕ) (s : Text)
    → ((c : ℕ) → step p c ≡ step start c)
    → read closing (d ∷ s) ≡ read inside (d ∷ s)
    → read start (d ∷ s) ≡ read inside (d ∷ s)
    → read p (write_field f ++ (d ∷ s)) ≡ pushes f (read inside (d ∷ s))
unfolding write_field read
read_field p f d s opens closes starts = elim (Bool-cases (needs_quotes f)) [
  | inl e ↦ rw e (
      rw (opens 34) (
        ap (read quoted) (append_assoc (double_quotes f) (34 ∷ []) (d ∷ s))
        ∙ read_quoted f (d ∷ s)
        ∙ ap (pushes f) closes))
  | inr e ↦ rw e (read_unquoted p f d s opens starts e)
]

read_first :
    (p : Place) (f : Text) (fs : List Text) (s : Text)
    → ((c : ℕ) → step p c ≡ step start c)
    → read p (write_field f ++ (write_fields fs ++ s))
      ≡ pushes f (read inside (write_fields fs ++ s))
unfolding write_fields read
read_first p f [] s opens = read_field p f 13 (10 ∷ s) opens refl refl
read_first p f (g ∷ fs) s opens =
    read_field p f 44 ((write_field g ++ write_fields fs) ++ s) opens refl refl

-- The fields after the first one, and the end of the row.
read_fields :
    (fs : List Text) (s : Text)
    → read inside (write_fields fs ++ s) ≡ rest [] fs (rows_of (read line s))
unfolding write_fields read
read_fields [] s = refl
read_fields (f ∷ fs) s = ap new_field (
    ap (read start) (append_assoc (write_field f) (write_fields fs) s)
    ∙ read_first start f fs s (λ c. refl)
    ∙ ap (pushes f) (read_fields fs s)
    ∙ pushes_all f fs (rows_of (read line s)))

read_written :
    (f : Text) (fs : List Text) (s : Text)
    → read line ((write_field f ++ write_fields fs) ++ s) ≡ rest f fs (rows_of (read line s))
read_written f fs s =
    ap (read line) (append_assoc (write_field f) (write_fields fs) s)
    ∙ read_first line f fs s (λ c. refl)
    ∙ ap (pushes f) (read_fields fs s)
    ∙ pushes_all f fs (rows_of (read line s))

-- A row with fields, and the rows after it.
pub read-write_row :
    (f : Text) (fs : List Text) (s : Text)
    → read_csv (write_row (f ∷ fs) ++ s) ≡ (f ∷ fs) ∷ read_csv s
unfolding read_csv write_row write_field write_fields read needs_quotes
read-write_row [] [] s = refl
read-write_row [] (g ∷ fs) s = ap rows_of (read_written [] (g ∷ fs) s)
read-write_row (c ∷ f) fs s = ap rows_of (read_written (c ∷ f) fs s)

module _ (isoformat : Time → Text) (column : Text) (columns : List Text) where
  read-write_rows :
      (rows : List (Dict Value))
      → read_csv (write_rows isoformat (column ∷ columns) rows)
        ≡ map (row_fields isoformat (column ∷ columns)) rows
  unfolding write_rows row_fields read_csv read
  read-write_rows [] = refl
  read-write_rows (row ∷ rows) =
      read-write_row _ _ (write_rows isoformat (column ∷ columns) rows)
      ∙ ap (λ (l : List (List Text)). row_fields isoformat (column ∷ columns) row ∷ l)
          (read-write_rows rows)

  -- An exported text with at least one column, read back as RFC 4180 describes, is the row of the
  -- columns and then the fields of the rows, whatever commas, quotes and line ends they hold.
  pub read_csv-export_to_csv :
      (rows : List (Dict Value))
      → read_csv (export_to_csv isoformat rows (column ∷ columns))
        ≡ (column ∷ columns) ∷ map (row_fields isoformat (column ∷ columns)) rows
  unfolding export_to_csv
  read_csv-export_to_csv rows =
      read-write_row column columns (write_rows isoformat (column ∷ columns) rows)
      ∙ ap (λ (l : List (List Text)). (column ∷ columns) ∷ l) (read-write_rows rows)
