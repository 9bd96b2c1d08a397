-- ===== src/Health/Parse/Latest.antt =====
-- pw-top repeats its rows: the latest counts (crates/openwave-core/src/health.rs).
use openwave.Prelude.{
  ℕ, String, Option, none, some, List, [], ◌∷◌, ◌==◌, ◌≡◌, refl, ◌∙◌, nat_instance, if◌then◌else◌,
  map, Option-cases, inl, inr, ap, get_elem?, arith,
}
use openwave.Prelude.Dict.{Dict, get as find_key, insert, get-insert}
use openwave.Prelude.Decimal.{parse_uint, u32_max, u64_max}
use openwave.Prelude.Json.{◌>>?◌}
use openwave.Routing.Claims.{split_whitespace}
use openwave.Health.Parse.{XrunCount, row, read_rows, parse_pw_top, lines, last?, drop}

-- The last row of a node, or `before` where there is none.
abbrev pub latest : ℕ → Option XrunCount → List (Option XrunCount) → Option XrunCount
latest id before [] = before
latest id before (none ∷ rows) = latest id before rows
latest id before (some r ∷ rows) = latest id (if r.node_id == id then some r else before) rows

read_rows-latest :
    (id : ℕ) (counts : Dict ℕ XrunCount) (ls : List String)
    → find_key id (read_rows counts ls) ≡ latest id (find_key id counts) (map row ls)
unfolding read_rows
read_rows-latest id counts [] = refl
read_rows-latest id counts (l ∷ ls) = elim (Option-cases (row l)) [
  | inl e ↦ rw e (read_rows-latest id counts ls)
  | inr (r, e) ↦ rw e (
      read_rows-latest id (insert r.node_id r counts) ls
      ∙ rw (get-insert id r.node_id r counts) refl)
]

abbrev counted : Option ℕ → Option ℕ → Option String → Option XrunCount
counted (some id) (some count) (some name) =
    some (record { node_id = id; node_name = name; count = count })
counted _ _ _ = none

-- The columns of pw-top: the state, the id, the quantum, the rate, the wait, the busy time, the two
-- ratios, the errors, and what ends with the name.
abbrev pub columns : List String → Option XrunCount
columns (state ∷ id ∷ quantum ∷ rate ∷ wait ∷ busy ∷ wait_ratio ∷ busy_ratio ∷ errors ∷ rest) =
    counted (parse_uint u32_max id) (parse_uint u64_max errors) (last? rest)
columns _ = none

of_fields :
    (fields : List String)
    → ((get_elem? fields 1 >>? parse_uint u32_max) >>? λ id.
        (get_elem? fields 8 >>? parse_uint u64_max) >>? λ count. last? (drop 9 fields) >>? λ name.
        some (record { node_id = id; node_name = name; count = count }))
      ≡ columns fields
of_fields [] = refl
of_fields (a ∷ []) = refl
of_fields (a ∷ b ∷ []) = ground arith
of_fields (a ∷ b ∷ c ∷ []) = ground arith
of_fields (a ∷ b ∷ c ∷ d ∷ []) = ground arith
of_fields (a ∷ b ∷ c ∷ d ∷ e ∷ []) = ground arith
of_fields (a ∷ b ∷ c ∷ d ∷ e ∷ f ∷ []) = ground arith
of_fields (a ∷ b ∷ c ∷ d ∷ e ∷ f ∷ g ∷ []) = ground arith
of_fields (a ∷ b ∷ c ∷ d ∷ e ∷ f ∷ g ∷ h ∷ []) = ground arith
of_fields (a ∷ b ∷ c ∷ d ∷ e ∷ f ∷ g ∷ h ∷ i ∷ rest) = ground arith

row-columns : (line : String) → row line ≡ columns (split_whitespace line)
unfolding row
row-columns line = of_fields (split_whitespace line)

map-row : (ls : List String) → map row ls ≡ map (λ line. columns (split_whitespace line)) ls
map-row [] = refl
map-row (l ∷ ls) = ground (arith, row-columns l, map-row ls)

-- The count of a node is the number in the ninth column of the last line whose second column is the
-- id of the node, and where id, number and name can be read; a node with no such line has no count.
pub parse_pw_top-latest :
    (id : ℕ) (text : String)
    → find_key id (parse_pw_top text)
      ≡ latest id none (map (λ line. columns (split_whitespace line)) (lines text))
unfolding parse_pw_top find_key
parse_pw_top-latest id text =
    read_rows-latest id [] (lines text) ∙ ap (latest id none) (map-row (lines text))
