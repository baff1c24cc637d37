-- ===== src/Names.antt =====
-- The names of the Kubernetes objects: `hash8`, `shortenComponent`, `deploymentName` and
-- `configMapName` of internal/impl/kube.go.
pub mod Shorten
pub mod Total
pub mod Distinct
use weaver_kube.Base.{
  ℕ, ◌+◌, ◌-◌, ◌/◌, ◌%◌, ◌==◌, ◌||◌, ◌<◌, ◌≡◌, Bool, true, false, ◌&&◌, List, [], ◌∷◌, ◌++◌, map,
  arith, ltb, leb, if◌then◌else◌, length, take, Bytes, codes, split, Outcome, ok, panic, ◌>>=◌,
}

-- What the names and texts rest on outside the program: `sha256.New().Sum` after the given bytes
-- were written, the text of `uuid.NewHash` given what was written and the data, and the parts of
-- `strings.ToLower` and `%q` that are decided by Unicode tables.
pub record Extern : Type 0 where
  pub sha256 : Bytes → Bytes
  pub uuid_text : Bytes → Bytes → Bytes
  pub unicode_lower : Bytes → Bytes
  pub unicode_quote : Bytes → Bytes

-- `UUID.String` documents 36 characters.
pub record IsExtern (c : Extern) : Type 0 where
  pub length-uuid_text : (written text : Bytes) → length (c.uuid_text written text) ≡ 36

-- `s[:8]` panics if the string is shorter.
unfoldable pub first8 : Bytes → Outcome Bytes
first8 s = if ltb (length s) 8 then panic (codes "slice bounds out of range") else ok (take 8 s)

-- `strings.ToLower`: a byte of an ASCII text, and any other text by the tables.
lower_byte : ℕ → ℕ
lower_byte c = if leb b'A' c && leb c b'Z' then c + 32 else c

is_ascii : Bytes → Bool
is_ascii [] = true
is_ascii (c ∷ s) = ltb c 128 && is_ascii s

unfoldable pub to_lower : Extern → Bytes → Bytes
unfolding lower_byte is_ascii
to_lower c s = if is_ascii s then map lower_byte s else c.unicode_lower s

-- `%q`, as `strconv.Quote` writes it: an ASCII text here, and any other by the tables.
hex_digit : ℕ → ℕ
hex_digit d = if ltb d 10 then b'0' + d else b'a' + (d - 10)

quote_byte : ℕ → Bytes
unfolding hex_digit
quote_byte c =
    if c == b'"' || c == b'\\'
    then b'\\' ∷ c ∷ []
    else if leb 32 c && ltb c 127
    then c ∷ []
    else if c == 7
    then codes "\\a"
    else if c == 8
    then codes "\\b"
    else if c == 12
    then codes "\\f"
    else if c == 10
    then codes "\\n"
    else if c == 13
    then codes "\\r"
    else if c == 9
    then codes "\\t"
    else if c == 11
    then codes "\\v"
    else codes "\\x" ++ (hex_digit (c / 16) ∷ hex_digit (c % 16) ∷ [])

quote_bytes : Bytes → Bytes
unfolding quote_byte
quote_bytes [] = []
quote_bytes (c ∷ s) = quote_byte c ++ quote_bytes s

unfoldable pub quote : Extern → Bytes → Bytes
unfolding is_ascii quote_bytes
quote c s = if is_ascii s then b'"' ∷ (quote_bytes s ++ (b'"' ∷ [])) else c.unicode_quote s

-- The loop of `hash8`: `written` is what the hasher was given, and `text` is `data`, to which
-- `h.Sum` appends.
hash_loop : Extern → List Bytes → Bytes → Bytes → Bytes
hash_loop c [] written text = c.uuid_text written text
hash_loop c (str ∷ strs) written text =
    let now = written ++ (str ++ text) in hash_loop c strs now (text ++ c.sha256 now)

unfoldable pub hash8 : Extern → List Bytes → Outcome Bytes
unfolding hash_loop
hash8 c strs = first8 (hash_loop c strs [] [])

abbrev slash : ℕ
slash = b'/'

-- The last two of the parts with a dash between, or the only part.
last_parts : List Bytes → Outcome Bytes
last_parts [] = panic (codes "invalid component name")
last_parts (p ∷ []) = ok p
last_parts (p ∷ q ∷ []) = ok (p ++ (b'-' ∷ q))
last_parts (p ∷ q ∷ r ∷ ps) = last_parts (q ∷ r ∷ ps)

unfoldable pub shorten_component : Bytes → Outcome Bytes
unfolding last_parts
shorten_component component = last_parts (split slash component)

-- `fmt.Sprintf("%s-%s-%s-%s", ...)`
abbrev pub dashed : Bytes → Bytes → Bytes → Bytes → Bytes
dashed a b c d = a ++ (b'-' ∷ (b ++ (b'-' ∷ (c ++ (b'-' ∷ d)))))

unfoldable pub deployment_name : Extern → Bytes → Bytes → Bytes → Outcome Bytes
deployment_name c app component deployment_id = do
  hash ← hash8 c (app ∷ component ∷ deployment_id ∷ [])
  shortened ← shorten_component component
  version ← first8 deployment_id
  ok (dashed app (to_lower c shortened) version hash)

unfoldable pub config_map_name : Bytes → Outcome Bytes
config_map_name deployment_id = do version ← first8 deployment_id; ok (codes "config-" ++ version)
