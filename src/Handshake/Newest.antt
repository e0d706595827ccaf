-- ===== src/Handshake/Newest.antt =====
-- Which protocol a negotiation settles on.
use iddo_harness.Prelude.{
  ℕ, String, ◌≡◌, refl, Bool, true, false, ◌&&◌, some, List, [], ◌∷◌, arith, Bool-cases, inl, inr,
  is_empty, All, sym, ◌∙◌, subst, ◌||◌, ◌==◌, eq_refl, eq_iff, filter,
}
use iddo_harness.Prelude.Ids.{contains}
use iddo_harness.Json.{Fields, Python}
use iddo_harness.Handshake.{
  HandshakeReport, negotiate, tuple_le, protocol_key, newest_from, newest, shared_with,
  requested_in,
}

tuple_le_refl : (ks : List ℕ) → tuple_le ks ks ≡ true
unfolding tuple_le
tuple_le_refl [] = refl
tuple_le_refl (a ∷ ks) = ground (arith, tuple_le_refl ks)

tuple_le_total : (ks ls : List ℕ) → tuple_le ks ls ≡ false → tuple_le ls ks ≡ true
unfolding tuple_le
tuple_le_total [] ls h = ground arith
tuple_le_total (a ∷ ks) [] h = refl
tuple_le_total (a ∷ ks) (b ∷ ls) h = ground (arith, tuple_le_total ks ls)

tuple_le_trans :
    (ks ls ms : List ℕ) → tuple_le ks ls ≡ true → tuple_le ls ms ≡ true → tuple_le ks ms ≡ true
unfolding tuple_le
tuple_le_trans [] ls ms h k = refl
tuple_le_trans (a ∷ ks) [] ms h k = ground arith
tuple_le_trans (a ∷ ks) (b ∷ ls) [] h k = ground arith
tuple_le_trans (a ∷ ks) (b ∷ ls) (c ∷ ms) h k = ground (arith, tuple_le_trans ks ls ms)

abbrev no_newer : String → String → Bool
no_newer p q = tuple_le (protocol_key q) (protocol_key p)

keeps_best :
    (best p : String) (ps : List String)
    → no_newer best p ≡ true
    → newest_from best (p ∷ ps) ≡ newest_from best ps
unfolding newest_from
keeps_best best p ps older = rw older refl

takes_newer :
    (best p : String) (ps : List String)
    → no_newer best p ≡ false
    → newest_from best (p ∷ ps) ≡ newest_from p ps
unfolding newest_from
takes_newer best p ps newer = rw newer refl

newest_from-All :
    (best : String) (ps : List String) (found : String)
    → newest_from best ps ≡ found
    → All (λ q. no_newer found q ≡ true) (best ∷ ps)
unfolding newest_from
newest_from-All best [] found e = (rw (sym e) (tuple_le_refl (protocol_key best)), tt)
newest_from-All best (p ∷ ps) found e = elim (Bool-cases (no_newer best p)) [
  | inl older ↦
      let (top, rest) = newest_from-All best ps found (sym (keeps_best best p ps older) ∙ e) in
      (top, (tuple_le_trans (protocol_key p) (protocol_key best) _ older top, rest))
  | inr newer ↦
      let (top, rest) = newest_from-All p ps found (sym (takes_newer best p ps newer) ∙ e) in
      let over = tuple_le_total (protocol_key p) (protocol_key best) newer in
      (tuple_le_trans (protocol_key best) (protocol_key p) _ over top, (top, rest))
]

newest_from-contains :
    (best : String) (ps : List String) → contains (best ∷ ps) (newest_from best ps) ≡ true
unfolding newest_from contains
newest_from-contains best [] = ground (arith, eq_refl best)
newest_from-contains best (p ∷ ps) =
    ground (arith, newest_from-contains best ps, newest_from-contains p ps)

contains-filter :
    (x : String) (keep : String → Bool) (xs : List String)
    → contains (filter keep xs) x ≡ (contains xs x && keep x)
unfolding contains
contains-filter x keep [] = refl
contains-filter x keep (y ∷ ys) = ground (arith, contains-filter x keep ys, eq_iff y x)

newest-All :
    (ps : List String) (found : String)
    → newest ps ≡ some found
    → (contains ps found ≡ true) × All (λ q. no_newer found q ≡ true) ps
unfolding newest
newest-All [] found e = ground arith
newest-All (p ∷ ps) found e =
    let h : newest_from p ps ≡ found = cc in
    (
      subst (λ f. contains (p ∷ ps) f ≡ true) h (newest_from-contains p ps),
      newest_from-All p ps found h,
    )

All-contains :
    (P : String → Type 0) (xs : List String) (x : String) → contains xs x ≡ true → All P xs → P x
unfolding contains
All-contains P [] x e h = ground arith
All-contains P (y ∷ ys) x e h = elim (Bool-cases (y == x)) [
  | inl same ↦ subst P ((eq_iff y x).0 same) h.0
  | inr other ↦ All-contains P ys x (ground (arith, e)) h.1
]

-- Whether both sides know a protocol; a request that names none knows all.
abbrev pub both_know : List String → List String → String → Bool
both_know requested protocols p =
    contains protocols p && (is_empty requested || contains requested p)

shared_with-contains :
    (py : Python) (requested protocols : List String) (p : String)
    → contains (shared_with py requested protocols) p ≡ both_know requested protocols p
shared_with-contains py [] protocols p = ground arith
shared_with-contains py (r ∷ rs) protocols p = contains-filter p (contains (r ∷ rs)) protocols

-- The protocol that a negotiation settles on is one that both sides know, and no protocol that both know is
-- newer, comparing versions number by number. A request that names no protocol knows all.
pub negotiate-newest :
    (py : Python) (report : HandshakeReport) (request : Fields) (found other : String)
    → (negotiate py report request).negotiated_protocol ≡ some found
    → both_know (requested_in py request) report.protocols other ≡ true
    → (both_know (requested_in py request) report.protocols found ≡ true)
      × (tuple_le (protocol_key other) (protocol_key found) ≡ true)
unfolding negotiate
negotiate-newest py report request found other e k =
    let requested = requested_in py request in
    let (shared, greatest) = newest-All (shared_with py requested report.protocols) found e in
    (
      sym (shared_with-contains py requested report.protocols found) ∙ shared,
      All-contains _ _ other (shared_with-contains py requested report.protocols other ∙ k)
          greatest,
    )
