-- ===== src/Consumer/Reader.antt =====
-- How the journal of consumer.py reads its file: `_parse` and `_refresh`, with the offset up to which the file was
-- read. The file is a list of bytes; what `json` makes of a line is a parameter, `none` for a line that is skipped.
use universal_agent_middlewa.Prelude.{
  ℕ, suc, ◌+◌, String, Bool, true, false, ◌||◌, Option, none, some, List, [], ◌∷◌, length, ◌==◌,
  ◌++◌, if◌then◌else◌,
}
use universal_agent_middlewa.Consumer.Journal.{Record, Ledger, empty_ledger, refresh}

-- handle.seek(n), handle.read()
unfoldable pub read_from : ℕ → List ℕ → List ℕ
read_from ℕ.zero file = file
read_from (suc n) [] = []
read_from (suc n) (c ∷ file) = read_from n file

abbrev pub is_none_left : List ℕ → Bool
is_none_left [] = true
is_none_left (c ∷ l) = false

-- chunk[: chunk.rfind(b"\n") + 1]
unfoldable pub complete : List ℕ → List ℕ
complete [] = []
complete (c ∷ chunk) =
    let rest = complete chunk in
    if is_none_left rest then (if c == 10 then c ∷ [] else []) else c ∷ rest

abbrev pub add_byte : ℕ → List (List ℕ) → List (List ℕ)
add_byte c [] = (c ∷ []) ∷ []
add_byte c (line ∷ lines) = (c ∷ line) ∷ lines

-- `splitlines` of bytes, which ends a line at "\n" and at "\r"; "\r\n" gives an empty line more, which is skipped
unfoldable pub split_lines : List ℕ → List (List ℕ)
split_lines [] = []
split_lines (c ∷ chunk) =
    let rest = split_lines chunk in if c == 10 || c == 13 then [] ∷ rest else add_byte c rest

-- What the journal object keeps of the file, for one delivery.
pub record Reader : Type 0 where
  pub offset : ℕ
  pub count : ℕ
  pub ledger : Ledger

abbrev pub new_reader : Reader
new_reader = record { offset = 0; count = 0; ledger = empty_ledger }

module _ (record_of : List ℕ → Option Record) where
  unfoldable pub found_in : List (List ℕ) → List Record
  found_in [] = []
  found_in (line ∷ lines) =
      let rest = found_in lines in elim (record_of line) [ none ↦ rest | some r ↦ r ∷ rest ]

  -- `_parse`
  unfoldable pub parse : List ℕ → List Record
  parse chunk = found_in (split_lines (complete chunk))

  -- `_refresh`; a file that is not there reads as an empty one
  unfoldable pub refresh_from : String → List ℕ → Reader → Reader
  refresh_from id file s =
      let chunk = read_from s.offset file in
      let records = parse chunk in
      record {
        offset = s.offset + length (complete chunk);
        count = s.count + length records;
        ledger = refresh id s.ledger records;
      }

  -- the reader refreshes each time that more was written at the end of the file
  unfoldable pub follow : String → List ℕ → List (List ℕ) → Reader → Reader
  follow id file [] s = s
  follow id file (more ∷ later) s =
      follow id (file ++ more) later (refresh_from id (file ++ more) s)
