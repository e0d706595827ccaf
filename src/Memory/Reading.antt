-- ===== src/Memory/Reading.antt =====
-- What a read finds after a write.
use iddo_harness.Prelude.{
  ℕ, String, ◌≡◌, refl, sym, ap, ◌∙◌, ◌==◌, eq_iff, eq_refl, Bool, true, false, ◌&&◌, not, Option,
  none, some, List, [], ◌∷◌, ◌++◌, arith, filter, find, Bool-cases, inl, inr, if◌then◌else◌,
}
use iddo_harness.Prelude.Result.{Result, ok, Result-cases}
use iddo_harness.Json.{Value, Python}
use iddo_harness.Memory.Tags.{Commaless, read_back, normalise_tags-IsPlain}
use Prim.Native.Char.{code}
use iddo_harness.Memory.{
  Row, Memory, MemoryError, Codec, TagArg, is_at, is_expired, check_key, check_namespace, encode,
  set, get, normalise_tags, new_row, new_record, replaced, ttl_ok, expiry, created, get_record,
  row_to_record,
}

find-replaced :
    (same : Row → Bool) (row : Row) (rows : List Row)
    → same row ≡ true
    → find same (filter (λ r. not (same r)) rows ++ row ∷ []) ≡ some row
find-replaced same row [] h = rw h
find-replaced same row (r ∷ rows) h = elim (Bool-cases (same r)) [
  | inl hit ↦ rw hit (find-replaced same row rows h)
  | inr miss ↦ rw (miss, miss) (find-replaced same row rows h)
]

-- Rows of another key are found as before.
find-other :
    (same other : Row → Bool) (row : Row) (rows : List Row)
    → ((r : Row) → same r ≡ true → other r ≡ false)
    → other row ≡ false
    → find other (filter (λ r. not (same r)) rows ++ row ∷ []) ≡ find other rows
find-other same other row [] apart h = rw h
find-other same other row (r ∷ rows) apart h = elim (Bool-cases (same r)) [
  | inl hit ↦ rw (hit, apart r hit) (find-other same other row rows apart h)
  | inr miss ↦ elim (Bool-cases (other r)) [
    | inl found ↦ rw (miss, found)
    | inr next ↦ rw (miss, next) (find-other same other row rows apart h)
  ]
]

-- A row of one key is not a row of another.
other_key :
    (ns k n j : String) (r : Row)
    → is_at ns k r ≡ true
    → ((ns == n) && (k == j)) ≡ false
    → is_at n j r ≡ false
other_key ns k n j r h apart = ground (
  arith,
  eq_iff r.namespace ns,
  eq_iff r.namespace n,
  eq_iff ns n,
  eq_iff r.key k,
  eq_iff r.key j,
  eq_iff k j,
)

-- What `get` returns for a row, or for no row.
abbrev seen : Codec → Value → ℕ → Option Row → Value
seen codec default later none = default
seen codec default later (some r) =
    if is_expired later r.expires_at then default else codec.loads r.value

get-seen :
    (py : Python) (codec : Codec) (k n : String) (default : Value) (later : ℕ) (rows : List Row)
    → (get py codec k n default later rows).0 ≡ seen codec default later (find (is_at n k) rows)
unfolding get
get-seen py codec k n default later rows = ground arith

module _ (py : Python) (codec : Codec) (key value namespace : Value) (ttl : Option ℕ)
    (tags : TagArg) (now : ℕ) (rows : List Row) where
  ns : String
  ns = check_namespace py codec namespace

  tag_list : List String
  tag_list = normalise_tags tags

  -- What a successful `set` has returned and written.
  record Written (m : Memory) (rows' : List Row) : Type 0 where
    k : String
    encoded : String
    dumped : codec.dumps value ≡ some encoded
    returned : m ≡ new_record py codec ns k value ttl tag_list now rows
    put : rows' ≡ replaced py codec (new_row py codec ns k encoded ttl tag_list now rows) rows

  encode-dumps :
      (encoded : String) → encode py codec value ≡ ok encoded → codec.dumps value ≡ some encoded
  unfolding encode
  encode-dumps encoded h = ground arith

  set-Written :
      (m : Memory) (rows' : List Row)
      → set py codec key value namespace ttl tags now rows ≡ ok (m, rows')
      → Written m rows'
  unfolding set ns tag_list
  set-Written m rows' h = elim (Result-cases (check_key py codec key)) [
    | inr (e, bad) ↦ cc (rw (bad, set) at h)
    | inl (k, good) ↦ elim (Result-cases (encode py codec value)) [
      | inr (e, bad) ↦ cc (rw (good, bad, set) at h)
      | inl (encoded, fits) ↦ elim (Bool-cases (ttl_ok py codec ttl)) [
        | inr bad ↦ cc (rw (good, fits, bad, set) at h)
        | inl lives ↦
            let m' = new_record py codec ns k value ttl tag_list now rows in
            let rs = replaced py codec (new_row py codec ns k encoded ttl tag_list now rows) rows in
            let p : ◌≡◌ {A = Result MemoryError (Memory × List Row)} (ok (m', rs)) (ok (m, rows')) =
              rw (good, fits, lives, set) at h in
            let same : ◌≡◌ {A = Memory × List Row} (m', rs) (m, rows') = cc in
            record {
              k = k;
              encoded = encoded;
              dumped = encode-dumps encoded fits;
              returned = sym (ap (λ (r : Memory × List Row). r.0) same);
              put = sym (ap (λ (r : Memory × List Row). r.1) same);
            }
      ]
    ]
  ]

  module _ (m : Memory) (rows' : List Row)
      (done : set py codec key value namespace ttl tags now rows ≡ ok (m, rows')) where
    -- After a `set` that succeeds, `get` with the key and the namespace of the record that `set`
    -- returned returns the value that was set, until the time to live that was given has passed, and
    -- the default from then on, if `json.loads` undoes `json.dumps` on the value. (That key is the
    -- stripped one, and that namespace is "default" where none was given.) The record keeps the
    -- creation time of a row that was there.
    pub get-set :
        ((s : String) → codec.dumps value ≡ some s → codec.loads s ≡ value)
        → (default : Value) (later : ℕ)
        → ((get py codec m.key m.namespace default later rows').0
            ≡ (if is_expired later (expiry py codec now ttl) then default else value))
          × (m.created_at ≡ created py codec now (find (is_at m.namespace m.key) rows))
    get-set undo default later =
        let w = set-Written m rows' done in
        let row = new_row py codec ns w.k w.encoded ttl tag_list now rows in
        let here : is_at ns w.k row ≡ true = ground (arith, eq_refl ns, eq_refl w.k) in
        let found = find-replaced (is_at ns w.k) row rows here in
        rw (w.returned, w.put)
          (
            get-seen py codec w.k ns default later (replaced py codec row rows)
                ∙ ap (seen codec default later) found
                ∙ ap (λ v. if is_expired later (expiry py codec now ttl) then default else v)
                    (undo w.encoded w.dumped),
            refl,
          )

    -- After a `set` that succeeds, `get_record` with the key and the namespace of the record that
    -- `set` returned returns that very record, value and tags as well as instants, until its time to
    -- live has passed, and nothing from then on; if `json.loads` undoes `json.dumps` on the value, and
    -- no tag that is given in a list has a comma.
    pub get_record-set :
        ((s : String) → codec.dumps value ≡ some s → codec.loads s ≡ value)
        → code codec.comma ≡ 44
        → Commaless tags
        → (later : ℕ)
        → (get_record py codec m.key m.namespace later rows').0
          ≡ (if is_expired later m.expires_at then none else some m)
    unfolding get_record row_to_record tag_list
    get_record-set undo comma plain later =
        let w = set-Written m rows' done in
        let row = new_row py codec ns w.k w.encoded ttl tag_list now rows in
        let here : is_at ns w.k row ≡ true = ground (arith, eq_refl ns, eq_refl w.k) in
        let found = find-replaced (is_at ns w.k) row rows here in
        let read = read_back codec.comma tag_list comma (normalise_tags-IsPlain tags plain) in
        rw (w.returned, w.put)
          (rw (found, get_record, row_to_record, read, undo w.encoded w.dumped) (ground arith))

    -- A `set` leaves what `get` returns for every other key and namespace as it was.
    pub get-set_other :
        (k n : String) (default : Value) (later : ℕ)
        → is_at n k (new_row py codec m.namespace m.key "" none [] 0 []) ≡ false
        → (get py codec k n default later rows').0 ≡ (get py codec k n default later rows).0
    get-set_other k n default later apart =
        let w = set-Written m rows' done in
        let row = new_row py codec ns w.k w.encoded ttl tag_list now rows in
        let apart' : is_at n k row ≡ false = rw w.returned at apart in
        let differ = λ (r : Row) (h : is_at ns w.k r ≡ true). other_key ns w.k n k r h apart' in
        rw w.put (
          get-seen py codec k n default later (replaced py codec row rows)
          ∙ ap (seen codec default later)
              (find-other (is_at ns w.k) (is_at n k) row rows differ apart')
          ∙ sym (get-seen py codec k n default later rows))
