-- ===== src/Memory.antt =====
-- agent/memory.py, `MemoryStore`. The SQLite table is the list of its rows; a statement is what SQL
-- says it does to them. JSON encoding and decoding are Python's: parameters. Instants are natural
-- numbers, and a time to live that is not positive is 0.
pub mod Reading
pub mod Tags
use Prim.Native.Char.{Char}
use iddo_harness.Prelude.{
  ℕ, ◌+◌, String, ◌==◌, Bool, true, false, ◌&&◌, ◌||◌, not, Option, none, some, List, [], ◌∷◌, ◌++◌,
  leb, ltb, eqb, length, filter, find, any, take, map, if◌then◌else◌, nonempty,
}
use iddo_harness.Prelude.Ids.{contains}
use iddo_harness.Prelude.Sorting.{sorted}
use iddo_harness.Prelude.Text.{strip, char_count}
use iddo_harness.Prelude.Commas.{split, join}
use iddo_harness.Prelude.Result.{Result, ok, err, ◌>>=◌, ◌>>◌, guard}
use iddo_harness.Json.{Value, Python, str, truthy}

pub record Row : Type 0 where
  pub namespace : String
  pub key : String
  pub value : String
  pub tags : String
  pub created_at : ℕ
  pub updated_at : ℕ
  pub expires_at : Option ℕ

-- `MemoryRecord`
pub record Memory : Type 0 where
  pub namespace : String
  pub key : String
  pub value : Value
  pub tags : List String
  pub created_at : ℕ
  pub updated_at : ℕ
  pub expires_at : Option ℕ

pub data MemoryError : Type 0 where
  empty_key long_key not_serialisable too_large bad_ttl : MemoryError

-- `json.dumps`, which may raise; the length of its text in UTF-8; `json.loads` of a stored text; and
-- the comma.
pub record Codec : Type 0 where
  pub dumps : Value → Option String
  pub byte_count : String → ℕ
  pub loads : String → Value
  pub comma : Char

-- WHERE namespace = ? AND key = ?
abbrev pub is_at : String → String → Row → Bool
is_at namespace key r = (r.namespace == namespace) && (r.key == key)

-- The strip and the removal of repetitions in `_normalise_tags`, for the tags one by one.
unfoldable pub distinct_tags : List String → List String → List String
distinct_tags seen [] = seen
distinct_tags seen (tag ∷ rest) =
    let t = strip tag in
    distinct_tags (if nonempty t && not (contains seen t) then seen ++ t ∷ [] else seen) rest

-- The `tags` argument.
pub data TagArg : Type 0 where
  absent : TagArg
  separated : String → TagArg
  listed : List String → TagArg

unfoldable pub normalise_tags : TagArg → List String
unfolding distinct_tags
normalise_tags absent = []
normalise_tags (separated s) = distinct_tags [] (split s)
normalise_tags (listed tags) = distinct_tags [] tags

abbrev pub is_expired : ℕ → Option ℕ → Bool
is_expired now none = false
is_expired now (some t) = leb t now

-- `if prefix:` and `if tag:`: an empty text is as none.
abbrev if_given : Option String → (String → Bool) → Bool
if_given none test = true
if_given (some s) test = if nonempty s then test s else true

abbrev limited : Option ℕ → List Memory → List Memory
limited none ms = ms
limited (some n) ms = take n ms

module _ (py : Python) (codec : Codec) where
  unfoldable pub check_key : Value → Result MemoryError String
  check_key raw = do
    let key = strip (if truthy raw then str py raw else "")
    guard (nonempty key) empty_key
    guard (leb (char_count key) 512) long_key
    ok key

  unfoldable pub check_namespace : Value → String
  check_namespace raw =
      let s = strip (if truthy raw then str py raw else "") in if nonempty s then s else "default"

  unfoldable pub encode : Value → Result MemoryError String
  encode v = elim (codec.dumps v) [
    | none ↦ err not_serialisable
    | some s ↦ if ltb 1048576 (codec.byte_count s) then err too_large else ok s
  ]

  abbrev pub expiry : ℕ → Option ℕ → Option ℕ
  expiry now none = none
  expiry now (some ttl) = some (now + ttl)

  abbrev pub ttl_ok : Option ℕ → Bool
  ttl_ok none = true
  ttl_ok (some ttl) = ltb 0 ttl

  abbrev pub created : ℕ → Option Row → ℕ
  created now none = now
  created now (some r) = r.created_at

  -- The row that `set` writes, the record that it returns, and the table after INSERT OR REPLACE.
  abbrev pub new_row : String → String → String → Option ℕ → List String → ℕ → List Row → Row
  new_row ns k encoded ttl tag_list now rows = record {
    namespace = ns;
    key = k;
    value = encoded;
    tags = join codec.comma tag_list;
    created_at = created now (find (is_at ns k) rows);
    updated_at = now;
    expires_at = expiry now ttl;
  }

  abbrev pub new_record : String → String → Value → Option ℕ → List String → ℕ → List Row → Memory
  new_record ns k value ttl tag_list now rows = record {
    namespace = ns;
    key = k;
    value = value;
    tags = tag_list;
    created_at = created now (find (is_at ns k) rows);
    updated_at = now;
    expires_at = expiry now ttl;
  }

  abbrev pub replaced : Row → List Row → List Row
  replaced row rows = filter (λ r. not (is_at row.namespace row.key r)) rows ++ row ∷ []

  unfoldable pub set :
      Value
      → Value
      → Value
      → Option ℕ
      → TagArg
      → ℕ
      → List Row
      → Result MemoryError (Memory × List Row)
  set key value namespace ttl tags now rows = do
    k ← check_key key
    let ns = check_namespace namespace
    encoded ← encode value
    let tag_list = normalise_tags tags
    guard (ttl_ok ttl) bad_ttl
    ok (
      new_record ns k value ttl tag_list now rows,
      replaced (new_row ns k encoded ttl tag_list now rows) rows,
    )

  -- DELETE of one entry, and whether it was there.
  unfoldable pub delete : String → String → List Row → Bool × List Row
  delete key namespace rows =
      (any (is_at namespace key) rows, filter (λ r. not (is_at namespace key r)) rows)

  abbrev in_scope : Option String → Row → Bool
  in_scope none r = true
  in_scope (some namespace) r = r.namespace == namespace

  -- The count and the table of `clear`.
  unfoldable pub clear : Option String → List Row → ℕ × List Row
  clear namespace rows =
      (length (filter (in_scope namespace) rows), filter (λ r. not (in_scope namespace r)) rows)

  unfoldable pub purge_expired : ℕ → List Row → ℕ × List Row
  purge_expired now rows = (
    length (filter (λ r. is_expired now r.expires_at) rows),
    filter (λ r. not (is_expired now r.expires_at)) rows,
  )

  unfoldable pub row_to_record : Row → Memory
  row_to_record r = record {
    namespace = r.namespace;
    key = r.key;
    value = codec.loads r.value;
    tags = filter nonempty (split r.tags);
    created_at = r.created_at;
    updated_at = r.updated_at;
    expires_at = r.expires_at;
  }

  -- `get_record` at an instant; an expired row is deleted.
  unfoldable pub get_record : String → String → ℕ → List Row → Option Memory × List Row
  unfolding row_to_record delete
  get_record key namespace now rows = elim (find (is_at namespace key) rows) [
    | none ↦ (none, rows)
    | some r ↦
        if is_expired now r.expires_at
        then (none, (delete key namespace rows).1)
        else (some (row_to_record r), rows)
  ]

  abbrev pub value_or : Value → Option Memory → Value
  value_or default none = default
  value_or default (some m) = m.value

  unfoldable pub get : String → String → Value → ℕ → List Row → Value × List Row
  unfolding get_record
  get key namespace default now rows =
      let (found, rows') = get_record key namespace now rows in (value_or default found, rows')

  -- `list`: `like` is SQLite's match of a key with an escaped prefix, and `newer` its order.
  unfoldable pub list :
      (String → String → Bool)
      → (Row → Row → Bool)
      → Option String
      → Option String
      → Option String
      → Option ℕ
      → Bool
      → ℕ
      → List Row
      → List Memory
  unfolding row_to_record
  list like newer namespace prefix tag limit include_expired now rows =
      let selected =
        filter (λ r. in_scope namespace r && (if_given prefix (λ p. like p r.key))) rows in
      let live =
        filter (λ m. include_expired || not (is_expired now m.expires_at))
          (map row_to_record (sorted newer selected)) in
      let tagged = filter (λ m. if_given tag (λ t. contains m.tags t)) live in limited limit tagged
