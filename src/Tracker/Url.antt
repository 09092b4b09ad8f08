-- ===== src/Tracker/Url.antt =====
-- What internal/tracker/client.go uses of Go's net/url on queries: Values, with Set and Encode, and
-- Query.
pub mod Escapes
pub mod Pieces
pub mod Updates
pub mod Trip
pub mod Valid
use bittorrent_client.Base.{
  Bool, List, Option, [], bytes_eq, false, if◌then◌else◌, leb, length, ltb, none, some, true, ℕ,
  ◌%◌, ◌&&◌, ◌*◌, ◌++◌, ◌+◌, ◌-◌, ◌/◌, ◌==◌, ◌||◌, ◌∷◌,
}

-- url.Values: a key has one entry.
abbrev pub Values : Type 0
Values = List (List ℕ × List (List ℕ))

unfoldable pub values_get : List ℕ → Values → Option (List (List ℕ))
values_get key [] = none
values_get key ((k, vs) ∷ rest) =
    let later = values_get key rest in if bytes_eq key k then some vs else later

-- v[key] = f(v[key]), where the values of a key that is missing are nil.
unfoldable pub values_update : List ℕ → (List (List ℕ) → List (List ℕ)) → Values → Values
values_update key f [] = (key, f []) ∷ []
values_update key f ((k, vs) ∷ rest) =
    let later = values_update key f rest in
    if bytes_eq key k then (key, f vs) ∷ rest else (k, vs) ∷ later

-- Values.Set
unfoldable pub values_set : List ℕ → List ℕ → Values → Values
unfolding values_update
values_set key value vs = values_update key (λ old. value ∷ []) vs

-- Values.Add
unfoldable pub values_add : List ℕ → List ℕ → Values → Values
unfolding values_update
values_add key value vs = values_update key (λ old. old ++ (value ∷ [])) vs

between : ℕ → ℕ → ℕ → Bool
between low high c = leb low c && leb c high

-- Letters, digits, `-`, `_`, `.` and `~`
unreserved : ℕ → Bool
unfolding between
unreserved c =
    between 48 57 c
    || between 65 90 c
    || between 97 122 c
    || c == 45
    || c == 95
    || c == 46
    || c == 126

hex_digit : ℕ → ℕ
hex_digit d = if ltb d 10 then 48 + d else 55 + d

escape_byte : ℕ → List ℕ
unfolding unreserved hex_digit
escape_byte c =
    if unreserved c
    then c ∷ []
    else if c == 32
    then 43 ∷ []
    else 37 ∷ hex_digit (c / 16) ∷ hex_digit (c % 16) ∷ []

-- url.QueryEscape
unfoldable pub query_escape : List ℕ → List ℕ
unfolding escape_byte
query_escape [] = []
query_escape (c ∷ cs) = escape_byte c ++ query_escape cs

unhex : ℕ → Option ℕ
unfolding between
unhex c =
    if between 48 57 c
    then some (c - 48)
    else if between 65 70 c
    then some (c - 55)
    else if between 97 102 c
    then some (c - 87)
    else none

-- Where the unescaping of a string is: in an escape, with its first digit or before it, or not in
-- one, or behind a wrong one.
pub data Escape : Type 0 where
  outside at_first wrong : Escape
  at_second : ℕ → Escape

first_digit : Option ℕ → Escape × List ℕ
first_digit none = (wrong, [])
first_digit (some h) = (at_second h, [])

second_digit : ℕ → Option ℕ → Escape × List ℕ
second_digit h none = (wrong, [])
second_digit h (some l) = (outside, (h * 16 + l) ∷ [])

-- What one byte does, and what it gives.
unescape_byte : Escape → ℕ → Escape × List ℕ
unfolding unhex first_digit second_digit
unescape_byte outside c =
    if c == 37 then (at_first, []) else (outside, (if c == 43 then 32 else c) ∷ [])
unescape_byte at_first c = first_digit (unhex c)
unescape_byte (at_second h) c = second_digit h (unhex c)
unescape_byte wrong c = (wrong, [])

abbrev put : List ℕ → Option (List ℕ) → Option (List ℕ)
put out none = none
put out (some cs) = some (out ++ cs)

unescape : Escape → List ℕ → Option (List ℕ)
unfolding unescape_byte
unescape outside [] = some []
unescape _ [] = none
unescape e (c ∷ cs) = let next = unescape_byte e c in put next.1 (unescape next.0 cs)

-- url.QueryUnescape
unfoldable pub query_unescape : List ℕ → Option (List ℕ)
unfolding unescape
query_unescape s = unescape outside s

-- Insertion by the key, in the order of strings.
bytes_le : List ℕ → List ℕ → Bool
bytes_le [] ys = true
bytes_le (x ∷ xs) [] = false
bytes_le (x ∷ xs) (y ∷ ys) = let later = bytes_le xs ys in if x == y then later else ltb x y

unfoldable pub insert_key : List ℕ × List (List ℕ) → Values → Values
unfolding bytes_le
insert_key e [] = e ∷ []
insert_key e (f ∷ rest) =
    let later = insert_key e rest in if bytes_le e.0 f.0 then e ∷ f ∷ rest else f ∷ later

unfoldable pub sort_keys : Values → Values
unfolding insert_key
sort_keys [] = []
sort_keys (e ∷ rest) = insert_key e (sort_keys rest)

pair : List ℕ → List ℕ → List ℕ
pair key value = query_escape key ++ (61 ∷ query_escape value)

pairs_of : List ℕ → List (List ℕ) → List (List ℕ) → List (List ℕ)
unfolding pair
pairs_of key [] rest = rest
pairs_of key (v ∷ vs) rest = pair key v ∷ pairs_of key vs rest

unfoldable pub all_pairs : Values → List (List ℕ)
unfolding pairs_of
all_pairs [] = []
all_pairs ((k, vs) ∷ rest) = pairs_of k vs (all_pairs rest)

-- The pieces with `&` between them.
unfoldable pub join : List (List ℕ) → List ℕ
join [] = []
join (p ∷ []) = p
join (p ∷ q ∷ ps) = p ++ (38 ∷ join (q ∷ ps))

-- Values.Encode
unfoldable pub encode_values : Values → List ℕ
unfolding sort_keys all_pairs join
encode_values vs = join (all_pairs (sort_keys vs))

abbrev cons_first : ℕ → List (List ℕ) → List (List ℕ)
cons_first c [] = (c ∷ []) ∷ []
cons_first c (p ∷ ps) = (c ∷ p) ∷ ps

unfoldable pub split_on : ℕ → List ℕ → List (List ℕ)
split_on sep [] = [] ∷ []
split_on sep (c ∷ cs) =
    let later = split_on sep cs in if c == sep then [] ∷ later else cons_first c later

-- strings.Cut
cut_at : ℕ → List ℕ → List ℕ × List ℕ
cut_at sep [] = ([], [])
cut_at sep (c ∷ cs) =
    let later = cut_at sep cs in if c == sep then ([], cs) else (c ∷ later.0, later.1)

contains : ℕ → List ℕ → Bool
contains c [] = false
contains c (x ∷ xs) = x == c || contains c xs

add_unescaped : Option (List ℕ) → Option (List ℕ) → Values → Values
add_unescaped (some k) (some v) acc = values_add k v acc
add_unescaped _ _ acc = acc

-- A piece that is empty, has a `;` or a wrong escape is skipped.
add_piece : List ℕ → Values → Values
unfolding add_unescaped cut_at contains
add_piece p acc =
    let cut = cut_at 61 p in
    if contains 59 p || length p == 0
    then acc
    else add_unescaped (query_unescape cut.0) (query_unescape cut.1) acc

unfoldable pub add_pieces : List (List ℕ) → Values → Values
unfolding add_piece
add_pieces [] acc = acc
add_pieces (p ∷ ps) acc = add_pieces ps (add_piece p acc)

-- url.ParseQuery without its limit
unfoldable pub parse_query : List ℕ → Values
unfolding split_on add_pieces
parse_query s = add_pieces (split_on 38 s) []

-- URL.Query of a raw query, which is dropped when it has more than 10000 pieces.
unfoldable pub url_query : List ℕ → Values
unfolding parse_query split_on
url_query s = if ltb 10000 (length (split_on 38 s)) then [] else parse_query s
