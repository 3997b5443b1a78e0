-- ===== src/Database/Recent.antt =====
-- database.rs: the pastes of late.
use crosspaste_server.Codec.{JsonText}
use crosspaste_server.Codec.Value.{Value}
use crosspaste_server.Database.Tables.{Database, PasteRow, query}
use crosspaste_server.Prelude.{
  Bool, Exec, List, Option, Result, String, [], if◌then◌else◌, keep_if, lift, map, none, ok, some,
  take, true, try, ℕ, ◌>>=◌, ◌∷◌,
}
use crosspaste_server.Prelude.Int.{as_i64, ltb_ℤ, negsuc, pos, ℤ}
use crosspaste_server.Prelude.Map.{Map}

-- Rows in the order of their times, the last first; equal times keep the order of the table.
unfoldable pub insert_by_time : PasteRow → List PasteRow → List PasteRow
insert_by_time row [] = row ∷ []
insert_by_time row (r ∷ rows) =
    let rest = insert_by_time row rows in
    if ltb_ℤ row.created_at_ms r.created_at_ms then r ∷ rest else row ∷ r ∷ rows

unfoldable pub sort_by_time : List PasteRow → List PasteRow
unfolding insert_by_time
sort_by_time [] = []
sort_by_time (r ∷ rows) = insert_by_time r (sort_by_time rows)

-- `WHERE created_at_ms > ?1`, or all rows.
abbrev pub is_after : Option ℤ → PasteRow → Bool
is_after none row = true
is_after (some create_time) row = ltb_ℤ create_time row.created_at_ms

abbrev pub rows_of : Map ℤ PasteRow → List PasteRow
rows_of m = map (λ (id, row). row) m

-- `LIMIT` with a negative number takes all.
abbrev pub up_to : ℤ → List PasteRow → List PasteRow
up_to (pos n) rows = take n rows
up_to (negsuc n) rows = rows

-- The values of the rows, if all can be read.
unfoldable pub parse_all : JsonText Value → List PasteRow → Result String (List Value)
parse_all j [] = ok []
parse_all j (r ∷ rows) =
    try (j.from_str r.metadata_json) λ v. try (parse_all j rows) λ vs. ok (v ∷ vs)

unfoldable pub selected : Option ℤ → ℕ → Database → List PasteRow
unfolding sort_by_time
selected create_time limit d =
    up_to (as_i64 limit) (sort_by_time (keep_if (is_after create_time) (rows_of d.paste_records)))

unfoldable pub recent_pastes : JsonText Value → Option ℤ → ℕ → Exec Database String (List Value)
unfolding query selected parse_all
recent_pastes j create_time limit = do
  rows ← query (selected create_time limit)
  lift (parse_all j rows)
