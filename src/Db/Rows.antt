-- ===== src/Db/Rows.antt =====
-- The rows of a query, as source/crdb.go and trigger/database/database.go read them.
use locutus.Prelude.{String, List, [], ◌∷◌}
use locutus.Outcome.{Outcome, ok, panic, chain}
use locutus.Maps.{Assoc, insert}
use locutus.Env.{Cell}

-- row[column] = values[i], for each column; a missing value is an index out of range
unfoldable pub row_from : List String → List Cell → Assoc Cell → Outcome (Assoc Cell)
row_from [] values row = ok row
row_from (column ∷ columns) [] row = panic
row_from (column ∷ columns) (v ∷ values) row = row_from columns values (insert column v row)

unfoldable pub next_row : List String → Outcome (List Cell) → Outcome (Assoc Cell)
unfolding row_from
next_row columns values = chain values (λ vs. row_from columns vs [])
