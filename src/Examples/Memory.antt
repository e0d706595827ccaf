-- ===== src/Examples/Memory.antt =====
-- One entry of the table of agent/memory.py, written and read.
use iddo_harness.Prelude.{String, ◌≡◌, refl, Option, none, some, [], ◌∷◌, find, if◌then◌else◌}
use iddo_harness.Prelude.Text.{strip, char_count, is_space}
use iddo_harness.Prelude.Ids.{contains}
use iddo_harness.Prelude.Commas.{split}
use iddo_harness.Prelude.Result.{ok}
use iddo_harness.Json.{Value, text, null, str, truthy}
use iddo_harness.Memory.{
  Row, Memory, Codec, absent, separated, normalise_tags, is_at, is_expired, expiry, created,
  new_row, new_record, distinct_tags, get_record, set, get, check_key, check_namespace, encode,
}
use iddo_harness.Memory.Reading.{get-set, get_record-set}
use iddo_harness.Examples.Queue.{python}

abbrev dumps : Value → Option String
dumps (text s) = some s
dumps v = none

abbrev codec : Codec
codec = record { dumps = dumps; byte_count = char_count; loads = text; comma = "," }

abbrev row : Row
row = new_row python codec "default" "k" "v" (some 60) [] 100 []

abbrev memory : Memory
memory = new_record python codec "default" "k" (text "v") (some 60) [] 100 []

written :
    set python codec (text "k") (text "v") null (some 60) absent 100 [] ≡ ok (memory, row ∷ [])
unfolding set check_key check_namespace encode normalise_tags strip truthy str char_count
written = refl

get-set_example :
    ((get python codec "k" "default" null 120 (row ∷ [])).0
      ≡ (if is_expired 120 (expiry python codec 100 (some 60)) then null else text "v"))
    × (100 ≡ created python codec 100 (find (is_at "default" "k") []))
get-set_example =
    get-set python codec (text "k") (text "v") null (some 60) absent 100 [] memory (row ∷ [])
      written (λ s h. cc) null 120

abbrev tagged : Memory
tagged = new_record python codec "default" "k" (text "v") none ("red" ∷ "blue" ∷ []) 100 []

abbrev tagged_row : Row
tagged_row = new_row python codec "default" "k" "v" none ("red" ∷ "blue" ∷ []) 100 []

written_tagged :
    set python codec (text "k") (text "v") null none (separated "red, blue,,red") 100 []
    ≡ ok (tagged, tagged_row ∷ [])
unfolding set check_key check_namespace encode normalise_tags strip truthy str char_count
    distinct_tags split contains is_space
written_tagged = refl

get_record-set_example :
    (get_record python codec "k" "default" 120 (tagged_row ∷ [])).0
    ≡ (if is_expired 120 none then none else some tagged)
get_record-set_example =
    get_record-set python codec (text "k") (text "v") null none (separated "red, blue,,red") 100 []
      tagged (tagged_row ∷ []) written_tagged (λ s h. cc) refl tt 120
